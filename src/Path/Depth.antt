-- ===== src/Path/Depth.antt =====
-- path_depth_cnt of fs.c counts the names of a path.
use ukernel.Prelude.{
  ℕ, zero, suc, ◌+◌, ◌<◌, ◌≡◌, refl, sym, ap, ◌∙◌, ◌≢◌, inl, inr, ◌⊎◌, true, Option, some, List, [],
  ◌∷◌, arith, length,
}
use ukernel.Path.{path_parse, count_names, path_depth_cnt, next_name}
use ukernel.Path.Names.{
  components, are_names, Parsed, exhausted, found, cleared, next_name-Parsed, path_parse-Parsed,
  write_first, name_nonzero,
}

count_names_lem :
    (fuel depth : ℕ) (names : List (List ℕ)) (mem : ℕ → ℕ) (p : Option (List ℕ)) (name : ℕ → ℕ)
    → Parsed mem (p, name) names
    → are_names names ≡ true
    → length names < fuel
    → (mem 0 ≡ 0) ⊎ (names ≢ [])
    → count_names fuel (p, name) depth ≡ some (depth + length names)
unfolding count_names are_names
count_names_lem zero depth names mem p name parsed ok fits first = absurd (omega arith)
count_names_lem (suc fuel) depth [] mem p name (exhausted e) ok fits (inl zeroed) =
    let first : name 0 ≡ 0 = ap (λ q. q.1 0) e ∙ zeroed in ground arith
count_names_lem (suc fuel) depth [] mem p name (exhausted e) ok fits (inr ne) = absurd (ne refl)
count_names_lem (suc fuel) depth ([] ∷ names) mem p name parsed ok fits first = elim parsed [ ]
count_names_lem (suc fuel) depth ((c ∷ s) ∷ names) mem p name (found _ _ _ e w) ok fits first =
    let head : name 0 ≡ c = ap (λ m. m 0) w ∙ write_first c s 0 mem in
    let ih =
      count_names_lem fuel (depth + 1) names (cleared name) (next_name p name).0
        (next_name p name).1 (rw (sym e) (next_name-Parsed p name)) (ground arith) (omega arith)
        (inl refl) in
    ground (arith, ih, head, name_nonzero c s (ground arith))

-- For a path whose names are shorter than 16 bytes, path_depth_cnt returns how many there are, if it
-- is given more fuel than that, provided there is one or the first byte of the buffer that it does
-- not initialise happens to be zero.
pub path_depth_cnt-components :
    (fuel : ℕ) (garbage : ℕ → ℕ) (path : List ℕ)
    → are_names (components path) ≡ true
    → length (components path) < fuel
    → (garbage 0 ≡ 0) ⊎ (components path ≢ [])
    → path_depth_cnt fuel garbage path ≡ some (length (components path))
unfolding path_depth_cnt path_parse
path_depth_cnt-components fuel garbage path ok fits first = ground (
  arith,
  count_names_lem fuel 0 (components path) garbage (path_parse path garbage).0
      (path_parse path garbage).1 (path_parse-Parsed path garbage) ok fits first,
)
