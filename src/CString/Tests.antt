-- ===== src/CString/Tests.antt =====
-- The strings "ab" at 100 and "b" at 200, and the theorems at them.
use ukernel.Prelude.{ℕ, ◌≡◌, ◌↔◌, refl, arith, ◌==◌, some, List, [], ◌∷◌, if◌then◌else◌, ret}
use ukernel.CString.{strlen, strchr, strrchr, strchrs, strcmp, nought, minus_one}
use ukernel.CString.Terminated.{IsString, strings_read}
use ukernel.CString.Compare.{strcmp_lem}

abbrev two_strings : ℕ → ℕ
two_strings a = if a == 100 then 97 else if a == 101 then 98 else if a == 200 then 98 else 0

abbrev first : List ℕ
first = 97 ∷ 98 ∷ []

abbrev second : List ℕ
second = 98 ∷ []

first-IsString : IsString two_strings 100 first
first-IsString = (refl, omega arith, (refl, omega arith, refl))

second-IsString : IsString two_strings 200 second
second-IsString = (refl, omega arith, refl)

strings_read_example :
    (strlen 3 100 two_strings ≡ ret (some 2))
    × (strchr 3 100 98 two_strings ≡ ret (some 101))
    × (strrchr 3 100 98 two_strings ≡ ret (some 101))
    × (strchrs 3 100 98 two_strings ≡ ret (some 1))
strings_read_example =
    strings_read 3 two_strings 100 98 first first-IsString (omega arith) (λ e. absurd (omega arith))

strcmp_lem_example :
    (strcmp 3 100 200 two_strings ≡ ret (some minus_one))
    × ((strcmp 3 100 200 two_strings ≡ ret (some nought)) ↔ (◌≡◌ {A = List ℕ} first second))
strcmp_lem_example =
    strcmp_lem 3 two_strings 100 200 first second first-IsString second-IsString
      (omega arith, omega arith, (omega arith, omega arith, tt)) (omega arith, omega arith, tt)
      (omega arith) (λ e. absurd (omega arith)) (λ e. absurd (omega arith))
