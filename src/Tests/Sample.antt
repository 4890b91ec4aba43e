-- ===== src/Tests/Sample.antt =====
-- A concrete platform and the worlds in which the definitions are run.
use nexguard.Prelude.{
  ℕ, ◌≡◌, ◌≢◌, false, ◌+◌, ◌&&◌, List, [], ◌∷◌, ◌++◌, Option, none, some, arith, leb, if◌then◌else◌,
}
use nexguard.Prelude.Text.{Text, codes, text_eq, text_eq_iff, is_space}
use nexguard.Prelude.Text.Decimal.{decimal, value_from}
use nexguard.Store.{HashRow, Db, empty_db}
use nexguard.World.{World, Platform, Node, regular, directory, Outcome}
use nexguard.HashDb.Normalize.{LowerLaws}

-- Letters of ASCII have a lower case; the digest is the content itself; a time is written as its
-- number.
abbrev pub ascii_lower : ℕ → ℕ
ascii_lower c = if leb 65 c && leb c 90 then c + 32 else c

abbrev pub sample : Platform
sample = record {
  lower = ascii_lower;
  sha256_hex = λ c. c;
  format_time = decimal;
  parse_time = λ t. some (value_from 0 t);
  join = λ d n. d ++ b'/' ∷ n;
  parent = λ t. codes "/log";
  marshal_report = λ path hash name at. some path;
}

pub sample-LowerLaws : LowerLaws sample
unfolding is_space
sample-LowerLaws = record { lower_lower = λ c. ground arith; lower_space = λ c. ground arith }

abbrev pub virus : Text
virus = codes "abc"

abbrev pub virus_row : HashRow
virus_row = record {
  hash = virus;
  name = codes "Eicar";
  source = codes "manual";
  added_at = codes "7";
}

abbrev pub one_hash : Db
one_hash = record empty_db { hash_entries = virus_row ∷ [] }

-- A file with a known content, a clean one and the quarantine.
abbrev pub sample_files : Text → Option Node
sample_files path =
    if text_eq path (codes "/bad")
    then some (regular (record { content = virus; mode = 0o755 }))
    else if text_eq path (codes "/good")
    then some (regular (record { content = codes "xyz"; mode = 0o644 }))
    else if text_eq path (codes "/q")
    then some directory
    else none

abbrev pub world_with : Text → List Outcome → World
world_with stdin outcomes = record {
  db = one_hash;
  files = sample_files;
  stdin = stdin;
  out = [];
  now = 9;
  outcomes = outcomes;
}

abbrev pub quiet : World
quiet = world_with [] []

pub differ : (s t : Text) → text_eq s t ≡ false → s ≢ t
differ s t h e = ground (arith, text_eq_iff s t)
