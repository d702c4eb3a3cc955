-- ===== src/Status.antt =====
-- The status codes of part5/part5/error.h. A function that returns a `Status` returns a `Result`:
-- the code OK is `ok`, with the values of the output parameters, and every other code is in `err`.

use mathlib.Core.Path.{◌≡◌, refl}
use mathlib.Core.Logic.{◌⊎◌, inl, inr}

pub data Status : Type 0 where
  bad_file_ptr bad_file file_tab_full file_open file_not_open unix_err bad_page_ptr : Status
  bad_page_no file_exists hash_tbl_error hash_not_found buffer_exceeded page_not_pinned : Status
  bad_buffer page_pinned no_space no_records end_of_page invalid_slot_no invalid_rec_len : Status
  bad_rid bad_rec_ptr bad_scan_parm bad_scan_id scan_tab_full file_eof file_hdr_full : Status
  bad_index_parm rec_not_found bucket_full dir_overflow non_unique_entry no_more_recs : Status
  bad_sort_parm insuf_mem bad_cat_parm rel_not_found attr_not_found name_too_long : Status
  dupl_attr rel_exists no_index index_exists attr_too_long attr_type_mismatch : Status
  tmp_res_exists attribute_lack : Status

pub data Result {ℓ} (A : Type ℓ) : Type ℓ where
  ok : A → Result A
  err : Status → Result A

pub Result-cases {ℓ} :
    {A : Type ℓ} (r : Result A) → ((a : A) × (r ≡ ok a)) ⊎ ((s : Status) × (r ≡ err s))
Result-cases (ok a) = inl (a, refl)
Result-cases (err s) = inr (s, refl)
