-- ===== src/Seed.antt =====
-- `seed` of app/db/seed.py: the images of the brief, inserted unless they are there.
pub mod Again
use echo_security_scanner.Base.{
  ℕ, ◌+◌, Bool, true, ◌&&◌, none, List, [], ◌∷◌, ◌++◌, Text, codes, text_eq, if◌then◌else◌, any,
}
use echo_security_scanner.Domain.Models.{Time, Image}

-- `BRIEF_IMAGES`
abbrev pub brief_images : List (Text × Text)
brief_images =
    (codes "nginx", codes "1.19")
    ∷ (codes "postgres", codes "12")
    ∷ (codes "redis", codes "6.0")
    ∷ (codes "node", codes "14-alpine")
    ∷ (codes "python", codes "3.8-slim")
    ∷ (codes "alpine", codes "3.12")
    ∷ (codes "ubuntu", codes "20.04")
    ∷ (codes "mysql", codes "8.0")
    ∷ (codes "mongo", codes "4.4")
    ∷ (codes "httpd", codes "2.4")
    ∷ []

-- The image table, with the next value of its id sequence.
pub record ImageTable : Type 0 where
  pub images : List Image
  pub next_image : ℕ

-- The columns' defaults.
abbrev pub new_image : Time → ℕ → Text × Text → Image
new_image now id row = record {
  id = id;
  name = row.0;
  tag = row.1;
  scan_interval_seconds = none;
  enabled = true;
  current_scan_run_id = none;
  consecutive_failures = 0;
  last_scan_at = none;
  last_scan_status = none;
  created_at = now;
}

-- What `uq_image_name_tag` compares.
abbrev pub is_called : Text × Text → Image → Bool
is_called row i = text_eq i.name row.0 && text_eq i.tag row.1

-- One row of the statement: a conflict inserts nothing, and takes a value of the sequence.
unfoldable pub insert_image : Time → Text × Text → ImageTable → ImageTable
insert_image now row t =
    let next = t.next_image + 1 in
    if any (is_called row) t.images
    then record { images = t.images; next_image = next }
    else record { images = t.images ++ new_image now t.next_image row ∷ []; next_image = next }

unfoldable pub insert_images : Time → List (Text × Text) → ImageTable → ImageTable
unfolding insert_image
insert_images now [] t = t
insert_images now (row ∷ rows) t = insert_images now rows (insert_image now row t)

-- The number of rows that RETURNING gives.
unfoldable pub added : Time → List (Text × Text) → ImageTable → ℕ
unfolding insert_image
added now [] t = 0
added now (row ∷ rows) t =
    let rest = added now rows (insert_image now row t) in
    if any (is_called row) t.images then rest else rest + 1

unfoldable pub seed : Time → ImageTable → ℕ × ImageTable
unfolding insert_images added
seed now t = (added now brief_images t, insert_images now brief_images t)
