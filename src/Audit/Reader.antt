-- ===== src/Audit/Reader.antt =====
-- `AuditLog._read_path`, `AuditLog._last_entry` and `verify_audit_dir` of agent.py, and
-- `AuditVerificationMonitor.check` of product_service.py. A text is the list of its code points, as
-- `read_text` gives it; `loads` is `json.loads` of a line, `none` for a `JSONDecodeError`.
-- `\r\n` counts as two line ends, which only the number of a torn record's line shows.
pub mod Lines
mod Tests
use sigil_pi.Prelude.{
  ℕ, zero, suc, ◌+◌, ◌-◌, ◌*◌, min, String, Bool, true, false, not, ◌&&◌, ◌||◌, Option, none, some,
  List, [], ◌∷◌, ◌++◌, all, length, drop, leb, ◌==◌, if◌then◌else◌,
}
use sigil_pi.Prelude.Dict.{Dict}
use sigil_pi.Audit.Chain.{Record, Hashing, Verdict, verified, verify_chain}

-- Where `str.splitlines` ends a line.
abbrev pub is_break : ℕ → Bool
is_break c = (leb 10 c && leb c 13) || (leb 28 c && leb c 30) || c == 133 || c == 8232 || c == 8233

-- `str.isspace`
abbrev pub is_space : ℕ → Bool
is_space c =
    (leb 9 c && leb c 13)
    || (leb 28 c && leb c 32)
    || c == 133
    || c == 160
    || c == 5760
    || (leb 8192 c && leb c 8202)
    || c == 8232
    || c == 8233
    || c == 8239
    || c == 8287
    || c == 12288

-- `not line.strip()`
abbrev pub is_blank : List ℕ → Bool
is_blank = all is_space

abbrev pub onto_first : ℕ → List (List ℕ) → List (List ℕ)
onto_first c [] = (c ∷ []) ∷ []
onto_first c (line ∷ lines) = (c ∷ line) ∷ lines

-- The lines that `ends` ends; nothing comes after a last end.
unfoldable pub lines_at : (ℕ → Bool) → List ℕ → List (List ℕ)
lines_at ends [] = []
lines_at ends (c ∷ cs) =
    let rest = lines_at ends cs in if ends c then [] ∷ rest else onto_first c rest

-- The records of a file, or the `ValueError` of a torn one: its line, and how many are before it.
pub data Read : Type 0 where
  records : List Record → Read
  torn : ℕ → ℕ → Read

-- What a directory's verification reports.
pub data Problem : Type 0 where
  torn_file : ℕ → ℕ → Problem
  bad_chain : Verdict → Problem

pub record Report : Type 0 where
  pub is_ok : Bool
  pub chains : ℕ
  pub record_count : ℕ
  pub problems : List (String × Problem)

abbrev pub no_report : Report
no_report = record { is_ok = true; chains = 0; record_count = 0; problems = [] }

abbrev pub with_problem : String → Problem → Report → Report
with_problem name problem r = record r {
  is_ok = false;
  problems = r.problems ++ (name, problem) ∷ [];
}

module _ (loads : List ℕ → Option Record) where
  -- The loop over the lines, which are numbered from 1.
  unfoldable pub read_lines : ℕ → List Record → List (List ℕ) → Read
  read_lines n done [] = records done
  read_lines n done (line ∷ rest) =
      let skipped = read_lines (suc n) done rest in
      if is_blank line then skipped else elim (loads line) [
        | none ↦ torn n (length done)
        | some r ↦ read_lines (suc n) (done ++ r ∷ []) rest
      ]

  -- `_read_path`; `none` is a file that is not there.
  unfoldable pub read_path : Option (List ℕ) → Read
  unfolding read_lines lines_at
  read_path none = records []
  read_path (some text) = read_lines 1 [] (lines_at is_break text)

  abbrev pub last_of {ℓ} : {A : Type ℓ} → List A → Option A
  last_of [] = none
  last_of (x ∷ []) = some x
  last_of (x ∷ y ∷ rest) = last_of (y ∷ rest)

  abbrev pub not_blank : (List ℕ → Bool) → List (List ℕ) → List (List ℕ)
  not_blank blank [] = []
  not_blank blank (line ∷ rest) =
      let after = not_blank blank rest in if blank line then after else line ∷ after

  -- `bytes.strip`
  abbrev pub is_blank_bytes : List ℕ → Bool
  is_blank_bytes = all (λ c. (leb 9 c && leb c 13) || c == 32)

  abbrev pub tail_window : ℕ
  tail_window = 64 * 1024

  -- `_last_entry` on the file's bytes: the last line of the window, `some none` where it is torn.
  unfoldable pub last_entry : List ℕ → Option (Option Record)
  unfolding lines_at
  last_entry file =
      let window = drop (length file - min (length file) tail_window) file in
      elim (last_of (not_blank is_blank_bytes (lines_at (λ c. c == 10) window))) [
        | none ↦ none
        | some line ↦ some (loads line)
      ]

  module _ {Bytes Key : Type 0} (H : Hashing Bytes Key) (key : Option Key) where
    abbrev pub checked : String → ℕ → Verdict → Report → Report
    checked name n verified r = record r { record_count = r.record_count + n }
    checked name n problem r =
        with_problem name (bad_chain problem) (record r { record_count = r.record_count + n })

    abbrev pub add_file : String → Read → Report → Report
    add_file name (torn line before) r = with_problem name (torn_file line before) r
    add_file name (records rs) r = checked name (length rs) (verify_chain H rs key) r

    -- The loop over the files, in the order of their names; a missing directory has none.
    unfoldable pub verify_files : Report → Dict (List ℕ) → Report
    unfolding read_path
    verify_files r [] = r
    verify_files r ((name, text) ∷ rest) =
        verify_files (add_file name (read_path (some text)) (record r { chains = r.chains + 1 }))
          rest

    unfoldable pub verify_audit_dir : Dict (List ℕ) → Report
    unfolding verify_files
    verify_audit_dir files = verify_files no_report files

pub record Monitor : Type 0 where
  pub checks : ℕ
  pub failures : ℕ
  pub healthy : Bool
  pub last_check : Option ℕ
  pub chains : ℕ
  pub record_count : ℕ

-- `check`: the report, `none` where `verify` raised, and the time after it.
unfoldable pub check : Option Report → ℕ → Monitor → Bool × Monitor
check none now m = (
  false,
  record {
    checks = m.checks + 1;
    failures = m.failures + 1;
    healthy = false;
    last_check = some now;
    chains = 0;
    record_count = 0;
  },
)
check (some r) now m = (
  r.is_ok,
  record {
    checks = m.checks + 1;
    failures = m.failures + (if r.is_ok then 0 else 1);
    healthy = r.is_ok;
    last_check = some now;
    chains = r.chains;
    record_count = r.record_count;
  },
)
