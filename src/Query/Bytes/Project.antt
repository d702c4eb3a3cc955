-- ===== src/Query/Bytes/Project.antt =====
-- The record that `ScanSelect` of part5/part5/select.C builds.
use mathlib.Core.List.{append_assoc}
use ubase.Base.{
  length-append, ℕ, ◌+◌, ◌≡◌, refl, ap, sym, ◌∙◌, List, [], ◌∷◌, ◌++◌, length, drop, arith,
}
use ubase.Catalog.Descriptors.{AttrDesc}
use ubase.Page.{Record}
use ubase.Query.Bytes.{put, field, total_len, project}
use ubase.Query.Bytes.Put.{length-copy, put-behind, put-front, length-drop}

-- The bytes of the attributes, one behind the other.
abbrev pub fields : List AttrDesc → Record → List ℕ
fields [] rec = []
fields (a ∷ attrs) rec = field a rec ++ fields attrs rec

field_length : (a : AttrDesc) (rec : Record) → length (field a rec) ≡ a.attr_len
unfolding field
field_length a rec = length-copy a.attr_len (drop a.attr_offset rec)

project-behind :
    (attrs : List AttrDesc) (front : List ℕ) (at : ℕ) (rec : Record) (buf : List ℕ)
    → at ≡ length front
    → length buf ≡ total_len attrs
    → project attrs at rec (front ++ buf) ≡ front ++ fields attrs rec
unfolding project total_len
project-behind [] front at rec [] here size = refl
project-behind [] front at rec (d ∷ buf) here size = absurd (omega (arith, size))
project-behind (a ∷ attrs) front at rec buf here size =
    let f = field a rec in
    let wide : length f ≡ a.attr_len = field_length a rec in
    let placed : put at f (front ++ buf) ≡ (front ++ f) ++ drop (length f) buf =
      put-behind front f buf at 0 (omega (arith, here))
      ∙ ap (λ l. front ++ l) (put-front f buf (omega (arith, wide, size)))
      ∙ sym (append_assoc front f (drop (length f) buf)) in
    ap (λ l. project attrs (at + a.attr_len) rec l) placed
    ∙ project-behind attrs (front ++ f) (at + a.attr_len) rec (drop (length f) buf)
        (omega (arith, here, wide, length-append front f))
        (omega (arith, size, wide, length-drop (length f) buf (omega (arith, wide, size))))
    ∙ append_assoc front f (fields attrs rec)

-- The record that `ScanSelect` builds is the bytes of the attributes of the projection, one behind the
-- other, whatever its array held before.
pub project-fields :
    (attrs : List AttrDesc) (rec : Record) (buf : List ℕ)
    → length buf ≡ total_len attrs
    → project attrs 0 rec buf ≡ fields attrs rec
project-fields attrs rec buf size = project-behind attrs [] 0 rec buf refl size
