-- ===== src/Executor/Records/Kept.antt =====
-- What a write keeps of the record files.
use inryeok_bot.Prelude.{
  ℕ, ◌-◌, zero, suc, String, Bool, true, false, not, Option, none, some, List, [], ◌∷◌, ◌≡◌, ◌≢◌,
  refl, inl, inr, leb, str_eq, eq_iff, Bool-cases, All, All-imp, select_where, first_where, arith,
}
use inryeok_bot.Failures.Diagnostic.{list_prefix}
use inryeok_bot.Executor.Records.{
  execution_record_ttl_seconds, max_execution_records, ExecutionRecord, RecordFile, is_file_of,
  has_file, WriteOutcome, written, not_replaced, not_pruned, replace_file, is_fresh,
  write_execution_record,
}

module _ {A : Type 0} (P : A → Type 0) where
  All-select_where : (p : A → Bool) (xs : List A) → All P xs → All P (select_where p xs)
  All-select_where p [] h = tt
  All-select_where p (x ∷ xs) h = elim (Bool-cases (p x)) [
    | inl e ↦ rw e (h.0, All-select_where p xs h.1)
    | inr e ↦ rw e (All-select_where p xs h.1)
  ]

  -- A property of the value, if there is one.
  abbrev pub OfSome : Option A → Type 0
  OfSome none = Unit
  OfSome (some x) = P x

  pub OfSome-first_where : (p : A → Bool) (xs : List A) → All P xs → OfSome (first_where p xs)
  OfSome-first_where p [] h = tt
  OfSome-first_where p (x ∷ xs) h = elim (Bool-cases (p x)) [
    | inl e ↦ rw e h.0
    | inr e ↦ rw e (OfSome-first_where p xs h.1)
  ]

  All-list_prefix : (n : ℕ) (xs : List A) → All P xs → All P (list_prefix n xs)
  All-list_prefix n [] h = tt
  All-list_prefix zero (x ∷ xs) h = tt
  All-list_prefix (suc n) (x ∷ xs) h = (h.0, All-list_prefix n xs h.1)

abbrev pub new_file : ℕ → ExecutionRecord → RecordFile
new_file now r = record { execution_id = r.execution_id; modified = now; stored = some r }

-- A write adds at most one file, that of its record.
pub write-All :
    (P : RecordFile → Type 0) (w : WriteOutcome) (now : ℕ) (r : ExecutionRecord)
    (files : List RecordFile)
    → P (new_file now r)
    → All P files
    → All P (write_execution_record w now r files)
unfolding write_execution_record
write-All P written now r files h all =
    All-list_prefix P max_execution_records (select_where (is_fresh now) (replace_file now r files))
      (All-select_where P (is_fresh now) (replace_file now r files)
        (h, All-select_where P (λ f. not (is_file_of r.execution_id f)) files all))
write-All P not_replaced now r files h all = all
write-All P not_pruned now r files h all =
    (h, All-select_where P (λ f. not (is_file_of r.execution_id f)) files all)

others :
    (id : String) (files : List RecordFile)
    → All (λ f. is_file_of id f ≡ false) (select_where (λ f. not (is_file_of id f)) files)
others id [] = tt
others id (f ∷ files) = elim (Bool-cases (is_file_of id f)) [
  | inl e ↦ rw e (others id files)
  | inr e ↦ rw e (e, others id files)
]

-- After a write that replaces the file, no other file has the record's id.
pub write-All-other :
    (P : RecordFile → Type 0) (w : WriteOutcome) (now : ℕ) (r : ExecutionRecord)
    (files : List RecordFile)
    → P (new_file now r)
    → ((f : RecordFile) → is_file_of r.execution_id f ≡ false → P f)
    → w ≢ not_replaced
    → All P (write_execution_record w now r files)
unfolding write_execution_record
write-All-other P written now r files h k n =
    All-list_prefix P max_execution_records (select_where (is_fresh now) (replace_file now r files))
      (All-select_where P (is_fresh now) (replace_file now r files) (
        h,
        All-imp (λ f. is_file_of r.execution_id f ≡ false) P
            (select_where (λ f. not (is_file_of r.execution_id f)) files) k
            (others r.execution_id files),
      ))
write-All-other P not_replaced now r files h k n = absurd (n refl)
write-All-other P not_pruned now r files h k n = (
  h,
  All-imp (λ f. is_file_of r.execution_id f ≡ false) P
      (select_where (λ f. not (is_file_of r.execution_id f)) files) k (others r.execution_id files),
)

fresh_now : (now : ℕ) → leb (now - now) execution_record_ttl_seconds ≡ true
fresh_now now = ground arith

same : (s : String) → str_eq s s ≡ true
same s = (eq_iff s s).1 refl

-- A write that replaces the file leaves a file of its record.
pub has_file-write :
    (w : WriteOutcome) (now : ℕ) (r : ExecutionRecord) (files : List RecordFile)
    → w ≢ not_replaced
    → has_file r.execution_id (write_execution_record w now r files) ≡ true
unfolding write_execution_record
has_file-write written now r files n = rw (fresh_now now, same r.execution_id) refl
has_file-write not_replaced now r files n = absurd (n refl)
has_file-write not_pruned now r files n = rw (same r.execution_id) refl
