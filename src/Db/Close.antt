-- ===== src/Db/Close.antt =====
-- `DB::closeFile` of part5/part5/db.C.
use Prim.Native.String.{String}
use ubase.Base.{
  ℕ, ◌-◌, ◌<◌, ◌≡◌, ◌≢◌, inl, inr, refl, sym, ap, ◌∙◌, true, false, Option, none, some, arith, ◌==◌,
  if◌then◌else◌, Bool-cases, Option-cases,
}
use mathlib.Core.Path.{subst}
use ubase.Base.Eq.{string_eq}
use ubase.BufMgr
use ubase.BufMgr.Disk.{flush_file-keeps}
use ubase.Db.{
  FileObject, World, State, file_store, with_fd, check_page, set_object, set_world, close_object,
  close_unix, close_file,
}
use ubase.Db.Laws.{IsDb, opens, recount-IsDb, recount-opens}
use ubase.File
use ubase.OpenFiles.{OpenFileHashTbl}
use ubase.OpenFiles
use ubase.OpenFiles.Laws
use ubase.OpenFiles.Laws.{file_of, erase_both}
use ubase.Status.{Result, ok}
use ubase.Unix.{Unix}

module _ (u : Unix) where
  -- Two worlds with the same objects and the same table.
  pub record Alike (w w' : World u) : Type 0 where
    pub objects : w'.objects ≡ w.objects
    pub files : w'.open_files ≡ w.open_files
    pub next : w'.next_object ≡ w.next_object

  with_fd-Alike :
      (w w1 : World u) {A : Type 0} (fd : Option ℕ) (op : ℕ → File.M u A) (closed : Result A)
      → Alike w w1
      → Alike w (with_fd u fd w1 op closed).1
  with_fd-Alike w w1 none op closed a = a
  with_fd-Alike w w1 (some fd) op closed a = record {
    objects = a.objects;
    files = a.files;
    next = a.next;
  }

  write-Alike :
      (w : World u) (file n : ℕ) (b : Unix.Block u) (w1 : World u)
      → Alike w w1
      → Alike w ((file_store u).write_page file n b w1).1
  write-Alike w file n b w1 a =
      with_fd-Alike w w1 (w1.objects file).unix_file (λ fd. File.write_page u true fd n b)
        (check_page u n) a

  close_unix-Alike :
      (w : World u) (a : ℕ) (s : State u) → Alike w s.disk → Alike w (close_unix u a s).1.disk
  unfolding close_unix
  close_unix-Alike w a s l = elim (Option-cases (s.disk.objects a).unix_file) [
    | inl e ↦ rw (close_unix, e) l
    | inr (fd, e) ↦
        let l' : Alike w (record s.disk { unix = (Unix.close_fd u s.disk.unix fd).1 }) = record {
          objects = l.objects;
          files = l.files;
          next = l.next;
        } in
        elim (Bool-cases (Unix.close_fd u s.disk.unix fd).0) [
          | inl closed ↦ rw (close_unix, e, closed) l'
          | inr not_done ↦ rw (close_unix, e, not_done) l'
        ]
  ]

  -- `File::close` changes no object but for the count of its own.
  close_object-Alike :
      (s : State u) (a : ℕ)
      → 0 < (s.disk.objects a).open_cnt
      → Alike
          (set_object u s.disk a
            (record (s.disk.objects a) { open_cnt = (s.disk.objects a).open_cnt - 1 }))
          (close_object u a s).1.disk
  unfolding close_object
  close_object-Alike s a pos =
      let o = s.disk.objects a in
      let w1 = set_object u s.disk a (record o { open_cnt = o.open_cnt - 1 }) in
      let s1 = set_world u s w1 in
      let same : Alike w1 w1 = record { objects = refl; files = refl; next = refl } in
      let busy : (o.open_cnt == 0) ≡ false = ground arith in
      elim (Bool-cases (o.open_cnt == 1)) [
        | inl last ↦
            let flushed = flush_file-keeps (file_store u) (Alike w1) (write-Alike w1) s1 a same in
            let run : close_object u a s
                ≡ close_unix u a (BufMgr.flush_file (file_store u) a s1).1 =
              rw (close_object, busy, last) refl in
            subst (λ (r : Result (Unit {0}) × State u). Alike w1 r.1.disk) (sym run)
              (close_unix-Alike w1 a (BufMgr.flush_file (file_store u) a s1).1 flushed)
        | inr more ↦
            let run : close_object u a s ≡ (ok tt, s1) = rw (close_object, busy, more) refl in
            subst (λ (r : Result (Unit {0}) × State u). Alike w1 r.1.disk) (sym run) same
      ]

  -- The objects and the table agree in every world with the same objects and table.
  pub Alike-IsDb :
      (w w' : World u)
      → Alike w w'
      → IsDb u w
      → IsDb u w' × ((n : String) → opens u w' n ≡ opens u w n)
  unfolding opens
  Alike-IsDb w w' a v = (
    record {
      table = subst Laws.IsTable (sym a.files) v.table;
      fresh = omega (arith, v.fresh, a.next);
      live = λ n b e.
          let (p, q, r, c) = v.live n b (ap (λ t. file_of t n) (sym a.files) ∙ e) in
          let same = ap (λ f. f b) a.objects in
          (
            p,
            omega (arith, q, a.next),
            ap (λ o. o.file_name) same ∙ r,
            omega (arith, c, ap (λ o. o.open_cnt) same),
          );
    },
    λ n.
        ap (λ t. elim (file_of t n) [ none ↦ 0 | some b ↦ (w'.objects b).open_cnt ]) a.files
        ∙ ap
            (λ (f : ℕ → FileObject). elim (file_of w.open_files n) [
              | none ↦ 0
              | some b ↦ (f b).open_cnt
            ])
            a.objects,
  )

  -- The object of a file leaves the table.
  left-IsDb :
      (w : World u) (name : String) (a : ℕ) (f : ℕ → FileObject) (d : Unix.Disk u)
      (t : OpenFileHashTbl)
      → IsDb u w
      → file_of w.open_files name ≡ some a
      → (w.objects a).open_cnt ≡ 1
      → ((b : ℕ) → b ≢ a → f b ≡ w.objects b)
      → Laws.IsTable t
      → ((n : String)
          → file_of t n ≡ (if string_eq.beq n name then none else file_of w.open_files n))
      → IsDb u (record w { objects = f; open_files = t; unix = d })
        × ((n : String)
            → opens u (record w { objects = f; open_files = t; unix = d }) n
              ≡ (if string_eq.beq n name then opens u w name - 1 else opens u w n))
  unfolding opens
  left-IsDb w name a f d t v at once others table look =
      let (_, _, r', _) = v.live name a at in
      let kept : (n : String) (b : ℕ)
          → file_of t n ≡ some b
          → (b ≢ a) × (file_of w.open_files n ≡ some b) =
        λ n b e.
          let old : file_of w.open_files n ≡ some b = ground (arith, look n) in
          let (_, _, r, _) = v.live n b old in
          (
            λ here.
                let same = sym r ∙ ap (λ x. (w.objects x).file_name) here ∙ r' in
                ground (arith, look n, (string_eq.beq_iff n name).1 same),
            old,
          ) in
      (
        record {
          table = table;
          fresh = v.fresh;
          live = λ n b e.
              let (ne, old) = kept n b e in
              let (p, q, r, c) = v.live n b old in
              let same = others b ne in
              (p, q, ap (λ o. o.file_name) same ∙ r, omega (arith, c, ap (λ o. o.open_cnt) same));
        },
        λ n. elim (Option-cases (file_of t n)) [
          | inl e ↦ ground (arith, look n)
          | inr (b, e) ↦
              let (ne, old) = kept n b e in
              let same = ap (λ o. o.open_cnt) (others b ne) in ground (arith, look n)
        ],
      )

  -- `closeFile` of an open file, where the table and the objects agree: it returns OK, the file is open
  -- once less and no other count changed, and the table and the objects agree again. An error of the
  -- buffer manager or of close(2) is not reported.
  pub close_file-opens :
      (s : State u) (name : String) (a : ℕ)
      → IsDb u s.disk
      → file_of s.disk.open_files name ≡ some a
      → (s' : State u) × (close_file u a s ≡ (ok tt, s'))
        × IsDb u s'.disk
        × ((n : String)
            → opens u s'.disk n
              ≡ (if string_eq.beq n name then opens u s.disk name - 1 else opens u s.disk n))
  unfolding close_file opens
  close_file-opens s name a v at =
      let w = s.disk in
      let (pos, low, same, counted) = v.live name a at in
      let o = record (w.objects a) { open_cnt = (w.objects a).open_cnt - 1 } in
      let w1 = set_object u w a o in
      let s1 = (close_object u a s).1 in
      let l = close_object-Alike s a counted in
      let real : (a == 0) ≡ false = ground arith in
      let count : (s1.disk.objects a).open_cnt ≡ (w.objects a).open_cnt - 1 =
        ap (λ f. (f a).open_cnt) l.objects ∙ ground arith in
      elim (Bool-cases ((s1.disk.objects a).open_cnt == 0)) [
        | inl last ↦
            let once : (w.objects a).open_cnt ≡ 1 = ground arith in
            let named : (s1.disk.objects a).file_name ≡ name =
              ap (λ f. (f a).file_name) l.objects ∙ ground arith in
            let (t, erased, table, look) = (erase_both w.open_files name v.table).0 (λ q. cc) in
            let erased' : OpenFiles.erase s1.disk.open_files (s1.disk.objects a).file_name ≡ ok t =
              ap (λ x. OpenFiles.erase x (s1.disk.objects a).file_name) l.files
              ∙ ap (OpenFiles.erase w.open_files) named
              ∙ erased in
            let s2 = set_world u s1 (record s1.disk { open_files = t }) in
            let run : close_file u a s ≡ (ok tt, s2) = rw (close_file, real, last, erased') refl in
            let others : (b : ℕ) → b ≢ a → s1.disk.objects b ≡ w.objects b =
              λ b ne. ap (λ f. f b) l.objects ∙ ground arith in
            let (v2, counts) =
              left-IsDb w name a s1.disk.objects s1.disk.unix t v at once others table look in
            let l2 : Alike
                (record w { objects = s1.disk.objects; open_files = t; unix = s1.disk.unix })
                s2.disk =
              record { objects = refl; files = refl; next = l.next } in
            let (v3, kept) =
              Alike-IsDb
                (record w { objects = s1.disk.objects; open_files = t; unix = s1.disk.unix })
                s2.disk l2 v2 in
            (s2, run, v3, λ n. kept n ∙ counts n)
        | inr more ↦
            let run : close_file u a s ≡ (ok tt, s1) = rw (close_file, real, more) refl in
            let v1 = recount-IsDb u w name a o w.unix v at same (ground arith) in
            let (v2, kept) = Alike-IsDb w1 s1.disk l v1 in
            (s1, run, v2, λ n. kept n ∙ ground (arith, recount-opens u w name a o w.unix v at n))
      ]
