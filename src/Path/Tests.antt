-- ===== src/Path/Tests.antt =====
-- fs.c and buildin_cmd.c: paths at concrete inputs.
use ukernel.Prelude.{ℕ, ◌≡◌, refl, some, List, [], ◌∷◌, ret, arith, inr}
use ukernel.Path.{
  path_depth_cnt, wash_path, make_clear_abs_path, same_string, absolute, path_parse, skip_root,
  skip_slashes, store_name, next_name, wash_names, wash_name, string_in, up_one, before_last,
}
use ukernel.Path.Names.{components, add, split, are_names}
use ukernel.Path.Depth.{path_depth_cnt-components}
use ukernel.Path.Wash.{wash_path-resolve, resolve, enter, render, prefix}

-- "/ab//c/.."
abbrev two_up : List ℕ
two_up = b'/' ∷ b'a' ∷ b'b' ∷ b'/' ∷ b'/' ∷ b'c' ∷ b'/' ∷ b'.' ∷ b'.' ∷ []

two_up_names : components two_up ≡ (b'a' ∷ b'b' ∷ []) ∷ (b'c' ∷ []) ∷ (b'.' ∷ b'.' ∷ []) ∷ []
unfolding add split
two_up_names = refl

path_depth_cnt-components_example : path_depth_cnt 5 (λ i. 7) two_up ≡ some 3
unfolding add split are_names
path_depth_cnt-components_example =
    path_depth_cnt-components 5 (λ i. 7) two_up refl (omega arith) (inr (λ e. ground arith))

wash_path-resolve_example : wash_path 5 two_up ≡ ret (some (b'/' ∷ b'a' ∷ b'b' ∷ []))
unfolding add split are_names resolve enter render prefix same_string
wash_path-resolve_example = wash_path-resolve 5 two_up refl refl (omega arith)

-- "x" typed in "/ab" is "/ab/x".
relative_path :
    make_clear_abs_path 5 (some (b'/' ∷ b'a' ∷ b'b' ∷ [])) (b'x' ∷ [])
    ≡ ret (some (b'/' ∷ b'a' ∷ b'b' ∷ b'/' ∷ b'x' ∷ []))
unfolding make_clear_abs_path wash_path same_string absolute path_parse skip_root skip_slashes
    store_name next_name wash_names wash_name string_in up_one before_last
relative_path = refl
