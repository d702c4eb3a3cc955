-- ===== src/Db/Laws.antt =====
-- The class `DB` of part5/part5/db.C counts how often each file is open.
use Prim.Native.String.{String}
use ubase.Base.{
  ℕ, suc, ◌+◌, ◌<◌, ◌≡◌, ◌≢◌, ◌⊎◌, inl, inr, refl, sym, ap, ◌∙◌, true, false, Option, none, some,
  arith, ◌==◌, if◌then◌else◌, Bool-cases, Option-cases,
}
use mathlib.Core.Path.{subst}
use ubase.Base.Eq.{string_eq}
use ubase.BufMgr
use ubase.BufMgr.{BufMgr}
use ubase.Db.{
  FileObject, World, State, file_store, is_empty, new_object, set_object, set_world, open_object,
  register, open_file,
}
use ubase.OpenFiles
use ubase.OpenFiles.Laws
use ubase.OpenFiles.Laws.{file_of, insert_both, erase_both, find-file_of}
use ubase.Status.{Result, ok, err, unix_err, bad_file, hash_not_found}
use ubase.Unix.{Unix}

module _ (u : Unix) where
  -- How often a file is open.
  unfoldable pub opens : World u → String → ℕ
  opens w name = elim (file_of w.open_files name) [ none ↦ 0 | some a ↦ (w.objects a).open_cnt ]

  -- The table of open files holds the open `File` objects, each under its name.
  pub record IsDb (w : World u) : Type 0 where
    pub table : Laws.IsTable w.open_files
    pub fresh : 0 < w.next_object
    pub live :
        (name : String) (a : ℕ)
        → file_of w.open_files name ≡ some a
        → (0 < a)
          × (a < w.next_object)
          × ((w.objects a).file_name ≡ name)
          × (0 < (w.objects a).open_cnt)

  -- The object of an open file is replaced by one with the same name that is open.
  pub recount-IsDb :
      (w : World u) (name : String) (a : ℕ) (o : FileObject) (d : Unix.Disk u)
      → IsDb w
      → file_of w.open_files name ≡ some a
      → o.file_name ≡ name
      → 0 < o.open_cnt
      → IsDb (record (set_object u w a o) { unix = d })
  recount-IsDb w name a o d v at same pos = record {
    table = v.table;
    fresh = v.fresh;
    live = λ n b e.
        let (p, q, r, c) = v.live n b e in
        elim (Bool-cases (b == a)) [
          | inl here ↦
              let there : b ≡ a = ground arith in
              let (_, _, r', _) = v.live name a at in
              let names : name ≡ n = sym r' ∙ ap (λ x. (w.objects x).file_name) (sym there) ∙ r in
              (p, q, ground (arith, same ∙ names), ground arith)
          | inr other ↦ (p, q, ground arith, ground arith)
        ];
  }

  pub recount-opens :
      (w : World u) (name : String) (a : ℕ) (o : FileObject) (d : Unix.Disk u)
      → IsDb w
      → file_of w.open_files name ≡ some a
      → (n : String)
      → opens (record (set_object u w a o) { unix = d }) n
        ≡ (if string_eq.beq n name then o.open_cnt else opens w n)
  unfolding opens
  recount-opens w name a o d v at n = elim (Bool-cases (string_eq.beq n name)) [
    | inl q ↦
        let same : n ≡ name = (string_eq.beq_iff n name).0 q in
        ground (arith, ap (file_of w.open_files) same)
    | inr q ↦ elim (Option-cases (file_of w.open_files n)) [
      | inl e ↦ ground arith
      | inr (b, e) ↦
          let (_, _, r, _) = v.live n b e in
          let (_, _, r', _) = v.live name a at in
          let ne : b ≢ a = λ there.
            let same = sym r ∙ ap (λ x. (w.objects x).file_name) there ∙ r' in
            ground (arith, (string_eq.beq_iff n name).1 same) in
          ground arith
    ]
  ]

  -- What `openFile` may answer. OK: the object is in the table under the name, and the file is open
  -- once more. An error, BADFILE for the empty name and UNIXERR for a file that was not open: no count
  -- changed.
  abbrev pub OpenOf : World u → String → Result ℕ × State u → Type 0
  OpenOf w name (ok a, s') =
      IsDb s'.disk
      × (file_of s'.disk.open_files name ≡ some a)
      × ((n : String)
          → opens s'.disk n ≡ (if string_eq.beq n name then suc (opens w name) else opens w n))
  OpenOf w name (err e, s') =
      IsDb s'.disk
      × ((n : String) → opens s'.disk n ≡ opens w n)
      × (((e ≡ bad_file) × (is_empty name ≡ true)) ⊎ ((e ≡ unix_err) × (opens w name ≡ 0)))

  -- A new object, which the table does not hold.
  abbrev made : World u → (ℕ → FileObject) → Unix.Disk u → World u
  made w f d = record w { objects = f; next_object = suc w.next_object; unix = d }

  made-IsDb :
      (w : World u) (f : ℕ → FileObject) (d : Unix.Disk u)
      → ((b : ℕ) → b ≢ w.next_object → f b ≡ w.objects b)
      → IsDb w
      → IsDb (made w f d) × ((n : String) → opens (made w f d) n ≡ opens w n)
  unfolding opens
  made-IsDb w f d others v = (
    record {
      table = v.table;
      fresh = omega arith;
      live = λ n b e.
          let (p, q, r, c) = v.live n b e in
          let same = others b (λ h. omega (arith, q, h)) in
          (
            p,
            omega (arith, q),
            ap (λ o. o.file_name) same ∙ r,
            ground (arith, ap (λ o. o.open_cnt) same),
          );
    },
    λ n. elim (Option-cases (file_of w.open_files n)) [
      | inl e ↦ ground arith
      | inr (b, e) ↦
          let (p, q, r, c) = v.live n b e in
          let same = others b (λ h. omega (arith, q, h)) in
          ground (arith, ap (λ o. o.open_cnt) same)
    ],
  )

  -- An object that is open once enters the table.
  entered-IsDb :
      (w : World u) (name : String) (a : ℕ) (t : OpenFiles.OpenFileHashTbl)
      → IsDb w
      → (0 < a) × (a < w.next_object)
      → (w.objects a).file_name ≡ name
      → (w.objects a).open_cnt ≡ 1
      → file_of w.open_files name ≡ none
      → Laws.IsTable t
      → ((n : String)
          → file_of t n ≡ (if string_eq.beq n name then some a else file_of w.open_files n))
      → IsDb (record w { open_files = t })
        × (file_of t name ≡ some a)
        × ((n : String)
            → opens (record w { open_files = t }) n
              ≡ (if string_eq.beq n name then suc (opens w name) else opens w n))
  unfolding opens
  entered-IsDb w name a t v range same once absent table look = (
    record {
      table = table;
      fresh = v.fresh;
      live = λ n b e. elim (Bool-cases (string_eq.beq n name)) [
        | inl q ↦
            let names : n ≡ name = (string_eq.beq_iff n name).0 q in
            let here : a ≡ b = ground (arith, look n) in
            subst
              (λ x.
                (0 < x)
                × (x < w.next_object)
                × ((w.objects x).file_name ≡ n)
                × (0 < (w.objects x).open_cnt))
              here (range.0, range.1, same ∙ sym names, omega (arith, once))
        | inr q ↦ v.live n b (ground (arith, look n))
      ];
    },
    ground (arith, look name, (string_eq.beq_iff name name).1 refl),
    λ n. elim (Bool-cases (string_eq.beq n name)) [
      | inl q ↦ ground (arith, look n)
      | inr q ↦ ground (arith, look n)
    ],
  )

  -- The descriptor that open(2) gave, in the object.
  abbrev opened : State u → ℕ → Option ℕ → ℕ → State u
  opened s a fd cnt =
      let w = s.disk in
      let o = w.objects a in
      set_world u s (
        set_object u (record w { unix = (Unix.open_rdwr u w.unix o.file_name).1 }) a
          (record o { unix_file = fd; open_cnt = cnt }))

  open_object_fails :
      (s : State u) (a : ℕ)
      → (s.disk.objects a).open_cnt ≡ 0
      → (Unix.open_rdwr u s.disk.unix (s.disk.objects a).file_name).0 ≡ none
      → open_object u a s ≡ (err unix_err, opened s a none (s.disk.objects a).open_cnt)
  unfolding open_object
  open_object_fails s a closed e =
      let z : ((s.disk.objects a).open_cnt == 0) ≡ true = ground arith in
      rw (open_object, z, e) refl

  open_object_opens :
      (s : State u) (a fd : ℕ)
      → (s.disk.objects a).open_cnt ≡ 0
      → (Unix.open_rdwr u s.disk.unix (s.disk.objects a).file_name).0 ≡ some fd
      → open_object u a s ≡ (ok tt, opened s a (some fd) 1)
  unfolding open_object
  open_object_opens s a fd closed e =
      let z : ((s.disk.objects a).open_cnt == 0) ≡ true = ground arith in
      rw (open_object, z, e) refl

  -- `openFile` of a file that is not open.
  open_new :
      (s : State u) (name : String)
      → is_empty name ≡ false
      → OpenFiles.find s.disk.open_files name ≡ err hash_not_found
      → open_file u name s
        ≡ BufMgr.◌>>=◌
            (file_store u)
            (open_object u s.disk.next_object)
            (λ _. register u name s.disk.next_object)
            (set_world u s (new_object u s.disk name))
  unfolding open_file
  open_new s name filled miss = rw (open_file, filled, miss) refl

  -- The file of the name is not open: its object is made, opened and entered into the table.
  open_new-OpenOf :
      (s : State u) (name : String)
      → IsDb s.disk
      → is_empty name ≡ false
      → file_of s.disk.open_files name ≡ none
      → OpenOf s.disk name (open_file u name s)
  unfolding register opens
  open_new-OpenOf s name v filled absent =
      let w = s.disk in
      let a = w.next_object in
      let miss : OpenFiles.find w.open_files name ≡ err hash_not_found =
        find-file_of w.open_files name ∙ rw absent refl in
      let answer = Unix.open_rdwr u w.unix name in
      elim (Option-cases answer.0) [
        | inl e ↦
            let none_open : opens w name ≡ 0 = ground arith in
            let s0 = set_world u s (new_object u w name) in
            let s1 = opened s0 a none (s0.disk.objects a).open_cnt in
            let tried = open_object_fails s0 a (ground arith) (ground arith) in
            let run : open_file u name s ≡ (err unix_err, s1) =
              open_new s name filled miss
              ∙ ap
                  (λ r.
                    BufMgr.and_then (file_store u) {A = Unit {0}} {B = ℕ} r.0 r.1
                      (λ _. register u name a))
                  tried in
            let (v', kept) = made-IsDb w s1.disk.objects s1.disk.unix (λ b ne. ground arith) v in
            subst (OpenOf w name) (sym run) (v', kept, inr (refl, none_open))
        | inr (fd, e) ↦
            let s0 = set_world u s (new_object u w name) in
            let s1 = opened s0 a (some fd) 1 in
            let tried = open_object_opens s0 a fd (ground arith) (ground arith) in
            let (v', kept) = made-IsDb w s1.disk.objects s1.disk.unix (λ b ne. ground arith) v in
            let (t, entered, table, look) = (insert_both w.open_files name a v.table).0 absent in
            let registered : register u name a s1
                ≡ (ok a, set_world u s1 (record s1.disk { open_files = t })) =
              rw (register, entered) refl in
            let run : open_file u name s
                ≡ (ok a, set_world u s1 (record s1.disk { open_files = t })) =
              open_new s name filled miss
              ∙ ap
                  (λ r.
                    BufMgr.and_then (file_store u) {A = Unit {0}} {B = ℕ} r.0 r.1
                      (λ _. register u name a))
                  tried
              ∙ registered in
            let (v2, found, counts) =
              entered-IsDb s1.disk name a t v' (v.fresh, omega arith) (ground arith) (ground arith)
                absent table look in
            subst (OpenOf w name) (sym run)
              (v2, found, λ n. ground (arith, counts n, kept n, kept name))
      ]

  open_again-OpenOf :
      (s : State u) (name : String) (a : ℕ)
      → IsDb s.disk
      → is_empty name ≡ false
      → file_of s.disk.open_files name ≡ some a
      → OpenOf s.disk name (open_file u name s)
  unfolding open_file open_object opens
  open_again-OpenOf s name a v filled at =
      let w = s.disk in
      let o = record (w.objects a) { open_cnt = (w.objects a).open_cnt + 1 } in
      let hit : OpenFiles.find w.open_files name ≡ ok a =
        find-file_of w.open_files name ∙ rw at refl in
      let (pos, low, same, counted) = v.live name a at in
      let busy : ((w.objects a).open_cnt == 0) ≡ false = ground arith in
      let run : open_file u name s ≡ (ok a, set_world u s (set_object u w a o)) =
        rw (open_file, filled, hit, busy) refl in
      subst (OpenOf w name) (sym run) (
        recount-IsDb w name a o w.unix v at same (omega arith),
        at,
        λ n. let e = recount-opens w name a o w.unix v at n in ground arith,
      )

  -- `openFile`, where the table and the objects of the open files agree. If it returns OK, the object is
  -- in the table under the name, and the file is open once more. It returns an error only for the
  -- empty name, BADFILE, and for a file that was not open, UNIXERR; then no count changed. In each case
  -- the table and the objects agree again.
  pub open_file-OpenOf :
      (s : State u) (name : String) → IsDb s.disk → OpenOf s.disk name (open_file u name s)
  unfolding open_file
  open_file-OpenOf s name v = elim (Bool-cases (is_empty name)) [
    | inl e ↦
        let run : open_file u name s ≡ (err bad_file, s) = rw (open_file, e) refl in
        subst (OpenOf s.disk name) (sym run) (v, λ n. refl, inl (refl, e))
    | inr e ↦ elim (Option-cases (file_of s.disk.open_files name)) [
      | inl absent ↦ open_new-OpenOf s name v e absent
      | inr (a, at) ↦ open_again-OpenOf s name a v e at
    ]
  ]
