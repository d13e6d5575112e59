-- ===== src/Path.antt =====
-- Paths: path_parse and path_depth_cnt of fs.c, wash_path and make_clear_abs_path of
-- buildin_cmd.c. A pathname is only read, so it is its bytes without the terminator, and a pointer
-- into it is the rest from there. The buffer for a name is written without a terminator, so it is
-- memory, by position. A loop over the names takes fuel; `none` is fuel that ran out.
pub mod Names
pub mod Depth
pub mod Wash
mod Tests
use ukernel.Prelude.{
  ℕ, zero, suc, ◌+◌, Bool, true, false, not, ◌&&◌, Option, none, some, List, [], ◌∷◌, ◌++◌, ltb,
  ◌==◌, if◌then◌else◌, update, Outcome, ret, ◌>>=◌, ◌>>◌, assert, take,
}

abbrev pub slash : ℕ
slash = b'/'

abbrev pub dot : ℕ
dot = b'.'

abbrev pub max_file_name_len : ℕ
max_file_name_len = 16

abbrev pub max_path_len : ℕ
max_path_len = 512

-- while(*(++pathname) == '/');
unfoldable pub skip_slashes : List ℕ → List ℕ
skip_slashes [] = []
skip_slashes (c ∷ s) = if c == slash then skip_slashes s else c ∷ s

-- if(pathname[0] == '/') ...
unfoldable pub skip_root : List ℕ → List ℕ
skip_root [] = []
skip_root (c ∷ s) = if c == slash then skip_slashes s else c ∷ s

-- while (*pathname != '/' && *pathname != 0) *name_store++ = *pathname++;
unfoldable pub store_name : List ℕ → (at : ℕ) → (ℕ → ℕ) → List ℕ × (ℕ → ℕ)
store_name [] at name = ([], name)
store_name (c ∷ s) at name =
    let rest = store_name s (at + 1) (update name at c) in
    if c == slash then (c ∷ s, name) else rest

-- NULL at the end of the path, or where the next call begins
abbrev pub or_null : List ℕ → Option (List ℕ)
or_null [] = none
or_null (c ∷ s) = some (c ∷ s)

unfoldable pub path_parse : List ℕ → (ℕ → ℕ) → Option (List ℕ) × (ℕ → ℕ)
path_parse pathname name_store =
    let (rest, name) = store_name (skip_root pathname) 0 name_store in (or_null rest, name)

-- memset(name, 0, MAX_FILE_NAME_LEN); if (p) p = path_parse(p, name);
unfoldable pub next_name : Option (List ℕ) → (ℕ → ℕ) → Option (List ℕ) × (ℕ → ℕ)
next_name p name =
    let cleared = λ (i : ℕ). if ltb i max_file_name_len then 0 else name i in
    elim p [ none ↦ (none, cleared) | some s ↦ path_parse s cleared ]

-- while (name[0]) { depth++; ... }
unfoldable pub count_names : (fuel : ℕ) → Option (List ℕ) × (ℕ → ℕ) → (depth : ℕ) → Option ℕ
count_names zero here depth = none
count_names (suc fuel) (p, name) depth =
    let rest = count_names fuel (next_name p name) (depth + 1) in
    if name 0 == 0 then some depth else rest

-- `garbage` is what the stack held where `name` lies: it is not initialised.
unfoldable pub path_depth_cnt : (fuel : ℕ) (garbage : ℕ → ℕ) → List ℕ → Option ℕ
path_depth_cnt fuel garbage pathname = count_names fuel (path_parse pathname garbage) 0

-- the string that stands in a buffer, of `n` bytes at most
unfoldable pub string_in : (n : ℕ) → (ℕ → ℕ) → (at : ℕ) → List ℕ
string_in zero mem at = []
string_in (suc n) mem at =
    let rest = string_in n mem (at + 1) in if mem at == 0 then [] else mem at ∷ rest

-- whether two strings are equal, which is what !strcmp tests
unfoldable pub same_string : List ℕ → List ℕ → Bool
same_string [] [] = true
same_string [] (d ∷ t) = false
same_string (c ∷ s) [] = false
same_string (c ∷ s) (d ∷ t) = (c == d) && same_string s t

-- the string before its last '/', which strrchr finds
unfoldable pub before_last : List ℕ → Option (List ℕ)
before_last [] = none
before_last (c ∷ s) = elim (before_last s) [
  | some p ↦ some (c ∷ p)
  | none ↦ if c == slash then some [] else none
]

-- *slash_ptr = 0, or *(slash_ptr + 1) = 0 at the root. The path begins with '/', so strrchr finds one.
unfoldable pub up_one : List ℕ → List ℕ
up_one path = elim (before_last path) [ none ↦ path | some [] ↦ take 1 path | some (c ∷ p) ↦ c ∷ p ]

-- the body of the loop of wash_path, up to the next name
unfoldable pub wash_name : (name new_abs_path : List ℕ) → List ℕ
wash_name name path =
    if same_string (dot ∷ dot ∷ []) name
    then up_one path
    else if not (same_string (dot ∷ []) name)
    then (if not (same_string path (slash ∷ [])) then path ++ slash ∷ [] else path) ++ name
    else path

unfoldable pub wash_names :
    (fuel : ℕ) → Option (List ℕ) × (ℕ → ℕ) → (new_abs_path : List ℕ) → Option (List ℕ)
wash_names zero here path = none
wash_names (suc fuel) (p, name) path =
    let rest =
      wash_names fuel (next_name p name) (wash_name (string_in max_path_len name 0) path) in
    if name 0 == 0 then some path else rest

abbrev pub starts_with_slash : List ℕ → Bool
starts_with_slash [] = false
starts_with_slash (c ∷ s) = c == slash

-- The assert is that of assert.h, which stops the process. With no name the answer is "/", which is
-- also what the loop would leave.
unfoldable pub wash_path : (fuel : ℕ) → List ℕ → Outcome (Option (List ℕ))
wash_path fuel old_abs_path = do
  assert (starts_with_slash old_abs_path)
  let first = path_parse old_abs_path (λ i. 0)
  ret (if first.1 0 == 0 then some (slash ∷ []) else wash_names fuel first (slash ∷ []))

-- `cwd` is what getcwd leaves in abs_path, none where it fails.
unfoldable pub absolute : (cwd : Option (List ℕ)) → List ℕ → List ℕ
absolute none path = path
absolute (some cwd) path =
    (if not (same_string cwd (slash ∷ [])) then cwd ++ slash ∷ [] else cwd) ++ path

unfoldable pub make_clear_abs_path :
    (fuel : ℕ) (cwd : Option (List ℕ)) → List ℕ → Outcome (Option (List ℕ))
make_clear_abs_path fuel cwd path =
    wash_path fuel (if starts_with_slash path then path else absolute cwd path)
