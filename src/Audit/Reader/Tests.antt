-- ===== src/Audit/Reader/Tests.antt =====
-- Logs of records whose text is "ab", and one with U+2028 inside.
use sigil_pi.Prelude.{
  ℕ, ◌≡◌, refl, true, false, Option, none, some, List, [], ◌∷◌, ◌++◌, length, ◌==◌, if◌then◌else◌,
}
use sigil_pi.Audit.Chain.{Record}
use sigil_pi.Audit.Reader.{records, torn, read_path, last_entry, Monitor, check}
use sigil_pi.Audit.Reader.Lines.{appended, read_path-appended, read_path-break}

abbrev ab : List ℕ
ab = 97 ∷ 98 ∷ []

abbrev dumps : Record → List ℕ
dumps r = ab

abbrev loads : List ℕ → Option Record
loads line = if length line == 2 then some [] else none

-- "a", U+2028, "b"
abbrev split_dumps : Record → List ℕ
split_dumps r = 97 ∷ 8232 ∷ 98 ∷ []

reads_blank_lines : read_path loads (some (ab ++ 10 ∷ 32 ∷ 10 ∷ ab)) ≡ records ([] ∷ [] ∷ [])
unfolding read_path
reads_blank_lines = refl

torn_tail : read_path loads (some (ab ++ 10 ∷ 97 ∷ [])) ≡ torn 2 1
unfolding read_path
torn_tail = refl

last_of_two : last_entry loads (ab ++ 10 ∷ 97 ∷ 10 ∷ []) ≡ some none
unfolding last_entry
last_of_two = refl

abbrev monitor : Monitor
monitor = record {
  checks = 1;
  failures = 0;
  healthy = true;
  last_check = some 1;
  chains = 1;
  record_count = 1;
}

failed_check : check none 5 monitor ≡ (
  false,
  record {
    checks = 2;
    failures = 1;
    healthy = false;
    last_check = some 5;
    chains = 0;
    record_count = 0;
  },
)
unfolding check
failed_check = refl

read_path-appended_example :
    read_path loads (some (appended loads dumps ([] ∷ [] ∷ []))) ≡ records ([] ∷ [] ∷ [])
read_path-appended_example = read_path-appended loads dumps ([] ∷ [] ∷ []) (
  record { one_line = (refl, (refl, tt)); not_blank = refl; loaded = refl },
  (record { one_line = (refl, (refl, tt)); not_blank = refl; loaded = refl }, tt),
)

read_path-break_example : read_path loads (some (appended loads split_dumps ([] ∷ []))) ≡ torn 1 0
read_path-break_example =
    read_path-break loads split_dumps [] [] (97 ∷ []) (98 ∷ []) 8232 refl (refl, tt) refl refl refl
