-- ===== src/Seed/Again.antt =====
-- Seeding on every start (`seed` of app/db/seed.py).
use echo_security_scanner.Base.{
  ◌+◌, ◌≡◌, refl, sym, ap, ◌∙◌, true, List, [], ◌∷◌, ◌++◌, Text, text_eq_refl, arith, any,
  any-append, All, Bool-cases, inl, inr,
}
use mathlib.Core.List.{append_assoc, append-nil}
use echo_security_scanner.Domain.Models.{Time, Image}
use echo_security_scanner.Seed.{
  brief_images, ImageTable, new_image, is_called, insert_image, insert_images, added, seed,
}

-- A row that is there.
abbrev pub IsThere : ImageTable → Text × Text → Type 0
IsThere t row = any (is_called row) t.images ≡ true

insert_image_grows :
    (now : Time) (row : Text × Text) (t : ImageTable)
    → (new : List Image) × ((insert_image now row t).images ≡ t.images ++ new)
unfolding insert_image
insert_image_grows now row t = elim (Bool-cases (any (is_called row) t.images)) [
  | inl e ↦ ([], rw (e, insert_image) (sym (append-nil t.images)))
  | inr e ↦ (new_image now t.next_image row ∷ [], rw (e, insert_image) refl)
]

insert_images_grows :
    (now : Time) (rows : List (Text × Text)) (t : ImageTable)
    → (new : List Image) × ((insert_images now rows t).images ≡ t.images ++ new)
unfolding insert_images
insert_images_grows now [] t = ([], sym (append-nil t.images))
insert_images_grows now (row ∷ rows) t =
    let (a, e) = insert_image_grows now row t in
    let (b, f) = insert_images_grows now rows (insert_image now row t) in
    (a ++ b, f ∙ ap (λ xs. xs ++ b) e ∙ append_assoc t.images a b)

stays-IsThere :
    (now : Time) (rows : List (Text × Text)) (t : ImageTable) (row : Text × Text)
    → IsThere t row
    → IsThere (insert_images now rows t) row
stays-IsThere now rows t row h =
    let (new, e) = insert_images_grows now rows t in
    rw (e, any-append (is_called row) t.images new, h) refl

insert_image-IsThere :
    (now : Time) (row : Text × Text) (t : ImageTable) → IsThere (insert_image now row t) row
unfolding insert_image
insert_image-IsThere now row t = elim (Bool-cases (any (is_called row) t.images)) [
  | inl e ↦ rw (e, insert_image) e
  | inr e ↦
      rw (e, insert_image)
        (ground (
          arith,
          any-append (is_called row) t.images (new_image now t.next_image row ∷ []),
          text_eq_refl row.0,
          text_eq_refl row.1,
        ))
]

insert_images-IsThere :
    (now : Time) (rows : List (Text × Text)) (t : ImageTable)
    → All (IsThere (insert_images now rows t)) rows
unfolding insert_images
insert_images-IsThere now [] t = tt
insert_images-IsThere now (row ∷ rows) t = (
  stays-IsThere now rows (insert_image now row t) row (insert_image-IsThere now row t),
  insert_images-IsThere now rows (insert_image now row t),
)

-- Rows that are there are not inserted.
nothing_new :
    (now : Time) (rows : List (Text × Text)) (t : ImageTable)
    → All (IsThere t) rows
    → (added now rows t ≡ 0) × ((insert_images now rows t).images ≡ t.images)
unfolding insert_images added insert_image
nothing_new now [] t h = (refl, refl)
nothing_new now (row ∷ rows) t h =
    let rest =
      nothing_new now rows (record { images = t.images; next_image = t.next_image + 1 }) h.1 in
    rw (h.0, added, insert_images, insert_image) rest

-- After a seeding every image of the brief is there, behind the images that were there before, none of
-- which changed; a second seeding adds none, reports none, and changes no image.
pub seed_again :
    (first second : Time) (t : ImageTable)
    → let after = (seed first t).1 in
      All (IsThere after) brief_images
      × ((new : List Image) × (after.images ≡ t.images ++ new))
      × ((seed second after).0 ≡ 0)
      × ((seed second after).1.images ≡ after.images)
unfolding seed
seed_again first second t =
    let there = insert_images-IsThere first brief_images t in
    let again = nothing_new second brief_images (insert_images first brief_images t) there in
    (there, insert_images_grows first brief_images t, again.0, again.1)
