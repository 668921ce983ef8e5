-- ===== src/Text/Tests.antt =====
-- The string functions at concrete strings and memory.
use operation_system.Base.{◌+◌, ◌-◌, ◌≡◌, refl, some, [], ◌∷◌, arith, inl}
use operation_system.Base.Int.{pos}
use operation_system.Text.{
  memcpy, memmove, memmove_result, strcmp, strlen, strrchr, strspn, strstr, strtok_r,
}
use operation_system.Text.Memory.{memcpy-memmove, memmove-moved, moved}
use operation_system.Text.Search.{IsFirst, strstr-IsFirst}

memmove-moved_example : memmove 3 2 4 (λ i. i) 5 ≡ moved 3 2 4 (λ i. i) 5
memmove-moved_example = memmove-moved 3 2 4 (λ i. i) 5

memmove_test : memmove 3 2 4 (λ i. i) 5 ≡ 4
unfolding memmove
memmove_test = refl

-- An upward move does not return its destination.
memmove_result_test : memmove_result 2 3 4 ≡ 6
memmove_result_test = refl

memcpy-memmove_example : memcpy 2 3 4 (λ i. i) ≡ memmove 2 3 4 (λ i. i)
memcpy-memmove_example = memcpy-memmove 2 3 4 (λ i. i) (inl (omega arith))

strcmp_test : strcmp (97 ∷ []) 96 (λ i. i) ≡ pos 1
unfolding strcmp
strcmp_test = refl

strstr-IsFirst_example :
    IsFirst
      (97 ∷ (97 ∷ (98 ∷ [])))
      (97 ∷ (98 ∷ []))
      (strlen (97 ∷ (97 ∷ (98 ∷ []))) + 1 - strlen (97 ∷ (98 ∷ [])))
      (strstr (97 ∷ (97 ∷ (98 ∷ []))) (97 ∷ (98 ∷ [])))
strstr-IsFirst_example = strstr-IsFirst (97 ∷ (97 ∷ (98 ∷ []))) (97 ∷ (98 ∷ []))

strstr_test : strstr (97 ∷ (97 ∷ (98 ∷ []))) (97 ∷ (98 ∷ [])) ≡ some 1
unfolding strstr
strstr_test = refl

strtok_r_test : strtok_r (32 ∷ (97 ∷ (32 ∷ (98 ∷ [])))) (32 ∷ []) ≡ (some (97 ∷ []), 98 ∷ [])
unfolding strtok_r
strtok_r_test = refl

strrchr_test : strrchr (97 ∷ (98 ∷ (97 ∷ []))) 97 ≡ some 2
unfolding strrchr
strrchr_test = refl

strspn_test : strspn (97 ∷ (98 ∷ (99 ∷ []))) (98 ∷ (97 ∷ [])) ≡ 2
unfolding strspn
strspn_test = refl
