-- ===== src/Worker/Plain.antt =====
-- Paths below plain directories (src/tod-dl.py): making sure of them changes nothing, and a file
-- that is linked where nothing was leaves them plain.
use tod_dl.Worker.Transfer.Promotion.{ensure_part, ensure_parts, ensure_safe_parent}
use tod_dl.Worker.Recovery.{are_plain, is_plain_below}
use tod_dl.Files.{file, is_dir, is_link, Files, Node}
use tod_dl.Worker.{returned, System, World, and_then}
use tod_dl.Base.{
  ℕ, String, true, false, not, ◌&&◌, Option, none, some, List, [], ◌∷◌, ◌≡◌, refl, inl, inr, arith,
  eq_iff, lookup, insert, lookup-insert, Option-cases,
}

are_plain-insert :
    (path : String) (bytes : List ℕ) (files : Files) (dirs : List String)
    → lookup path files ≡ none
    → are_plain files dirs ≡ true
    → are_plain (insert path (file bytes) files) dirs ≡ true
unfolding are_plain is_dir is_link
are_plain-insert path bytes files [] free h = refl
are_plain-insert path bytes files (dir ∷ dirs) free h = ground (
  arith,
  are_plain-insert path bytes files dirs free,
  lookup-insert path dir (file bytes) files,
  eq_iff path dir,
)

pub is_plain_below-insert :
    (sys : System) (root path target : String) (bytes : List ℕ) (files : Files)
    → lookup target files ≡ none
    → is_plain_below sys root path files ≡ true
    → is_plain_below sys root path (insert target (file bytes) files) ≡ true
unfolding is_plain_below is_link
is_plain_below-insert sys root path target bytes files free h =
    elim (Option-cases (sys.below root path)) [
      | inl e ↦ ground arith
      | inr (dirs, e) ↦ ground (
        arith,
        are_plain-insert target bytes files dirs free,
        lookup-insert target root (file bytes) files,
        eq_iff target root,
      )
    ]

module _ (sys : System) (w : World) where
  ensure_part-plain :
      (dir : String) (node : Option Node)
      → (not (is_link node) && is_dir node) ≡ true
      → ensure_part sys dir node w ≡ (returned tt, w)
  unfolding ensure_part
  ensure_part-plain dir none h = unfold is_dir is_link in ground arith
  ensure_part-plain dir (some node) h = ground arith

  ensure_parts-plain :
      (dirs : List String)
      → are_plain w.files dirs ≡ true
      → ensure_parts sys dirs w ≡ (returned tt, w)
  unfolding ensure_parts are_plain and_then
  ensure_parts-plain [] h = refl
  ensure_parts-plain (dir ∷ dirs) h =
      rw (ensure_part-plain dir (lookup dir w.files) (ground arith))
        (ensure_parts-plain dirs (ground arith))

  root-plain :
      (dirs : List String)
      → (not (is_link (lookup sys.destination w.files)) && are_plain w.files dirs) ≡ true
      → is_link (lookup sys.destination w.files) ≡ false
  root-plain dirs h = ground arith

  -- Where the parents are plain directories, there is nothing to create or to refuse.
  pub ensure_safe_parent-plain :
      (target : String)
      → is_plain_below sys sys.destination target w.files ≡ true
      → ensure_safe_parent sys target w ≡ (returned tt, w)
  unfolding is_plain_below and_then
  ensure_safe_parent-plain target h = elim (Option-cases (sys.below sys.destination target)) [
    | inl e ↦ ground arith
    | inr (dirs, e) ↦
        unfold ensure_safe_parent in
        rw (ensure_safe_parent, e)
          (rw (root-plain dirs (ground arith)) (ensure_parts-plain dirs (ground arith)))
  ]
