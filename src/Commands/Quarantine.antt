-- ===== src/Commands/Quarantine.antt =====
-- cmd/avtool/quarantine.go: the commands around internal/quarantine. What `config.QuarantineDir` and
-- `strconv.ParseInt` answer is given.
use nexguard.Prelude.{ℕ, Bool, true, false, List, [], ◌∷◌, ◌++◌, Option, none, some, if◌then◌else◌}
use nexguard.Prelude.Text.{Text, codes, is_empty}
use nexguard.Prelude.Text.Decimal.{decimal}
use nexguard.Exec.{errorf, Exec, Result, ok, err, pure, raise, ◌>>=◌, ◌>>◌}
use nexguard.World.{World, Platform, print}
use nexguard.Quarantine.{Record}
use nexguard.Quarantine

-- `quarantineDirFlag` is empty if the flag is not given.
unfoldable pub get_quarantine_dir : Text → Result Text → Result Text
get_quarantine_dir flag dir = if is_empty flag then dir else ok flag

abbrev restored_text : Bool → Text
restored_text true = codes "true"
restored_text false = codes "false"

unfoldable pub record_line : Record → Text
record_line r =
    decimal r.id
    ++ (9 ∷ r.original_path)
    ++ (9 ∷ r.hash)
    ++ (9 ∷ codes "restored=")
    ++ restored_text r.restored

unfoldable pub print_records : List Record → Exec World Unit
unfolding record_line
print_records [] = pure tt
print_records (r ∷ records) = do print (record_line r); print_records records

unfoldable pub print_listing : List Record → Exec World Unit
unfolding print_records
print_listing [] = print (codes "no quarantine records")
print_listing (r ∷ records) = print_records (r ∷ records)

abbrev of_result : {A : Type 0} → Result A → Exec World A
of_result (ok a) = pure a
of_result (err e) = raise e

abbrev print_encoded : Option Text → Exec World Unit
print_encoded none = raise (errorf (codes "json: unsupported value"))
print_encoded (some t) = print t

abbrev or_invalid : Option ℕ → Exec World ℕ
or_invalid none = raise (errorf (codes "invalid id"))
or_invalid (some id) = pure id

module _ (p : Platform) (flag : Text) (dir : Result Text) where
  -- With `--json`, `encode` is the answer of the JSON encoder.
  unfoldable pub quarantine_list : Bool → (List Record → Option Text) → Exec World Unit
  unfolding print_listing
  quarantine_list json encode = do
    records ← Quarantine.list p
    if json then print_encoded (encode records) else print_listing records

  module _ (parse_int : Text → Option ℕ) where
    unfoldable pub quarantine_restore : Text → Exec World Unit
    unfolding get_quarantine_dir
    quarantine_restore arg = do
      id ← or_invalid (parse_int arg)
      q_dir ← of_result (get_quarantine_dir flag dir)
      Quarantine.restore p q_dir id
      print (codes "restored " ++ decimal id)
      print (codes "note: file permissions were reset when quarantined; you may need to chmod it")

    unfoldable pub quarantine_purge : Text → Exec World Unit
    unfolding get_quarantine_dir
    quarantine_purge arg = do
      id ← or_invalid (parse_int arg)
      q_dir ← of_result (get_quarantine_dir flag dir)
      Quarantine.purge p q_dir id
      print (codes "purged " ++ decimal id)
