-- ===== src/Feed.antt =====
-- internal/feed/feed.go: the rows of the threat feed as entries of the hash database.
use nexguard.Prelude.{ℕ, List, [], ◌∷◌, map, Option, none, some, if◌then◌else◌, ◌==◌, leb, length}
use nexguard.Prelude.Lists.{get_or}
use nexguard.Prelude.Text.{Text, codes, is_empty, trim_space}
use nexguard.Exec.{refused, errorf, wrap, Result, ok, err}
use nexguard.World.{Platform}
use nexguard.HashDb.{Entry, feed}

abbrev pub col_sha256 : ℕ
col_sha256 = 1

abbrev pub col_signature : ℕ
col_signature = 8

-- What the csv reader returns, one after another, up to `io.EOF`: a row's fields, or an error.
pub data Row : Type 0 where
  fields : List Text → Row
  malformed : Row

-- What the client returns: an error, or a status and the rows of the body.
pub data Response : Type 0 where
  unreachable : Response
  answered : ℕ → List Row → Response

unfoldable pub name_or_unknown : Text → Text
name_or_unknown t = if is_empty t then codes "unknown" else t

unfoldable pub with_entry : Option Entry → Result (List Entry) → Result (List Entry)
with_entry none r = r
with_entry (some e) (ok es) = ok (e ∷ es)
with_entry (some e) (err x) = err x

module _ (p : Platform) where
  unfoldable pub row_entry : ℕ → List Text → Option Entry
  unfolding name_or_unknown
  row_entry now row =
      let hash = map p.lower (trim_space (get_or row col_sha256 [])) in
      if leb (length row) col_signature
      then none
      else if is_empty hash
      then none
      else some (record {
        hash = hash;
        name = name_or_unknown (trim_space (get_or row col_signature []));
        source = feed;
        added_at = now;
      })

  -- `Parse`, given what the reader returns and the time at its start.
  unfoldable pub parse : ℕ → List Row → Result (List Entry)
  unfolding row_entry with_entry
  parse now [] = ok []
  parse now (malformed ∷ rows) = err (wrap (codes "parsing feed row") refused)
  parse now (fields row ∷ rows) = with_entry (row_entry now row) (parse now rows)

  unfoldable pub fetch : ℕ → Response → Result (List Entry)
  fetch now unreachable = err (wrap (codes "fetching feed") refused)
  fetch now (answered status rows) =
      if status == 200
      then parse now rows
      else err (errorf (codes "fetching feed: unexpected status"))
