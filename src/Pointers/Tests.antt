-- ===== src/Pointers/Tests.antt =====
-- A pointer of keys with slashes and tildes (verify.mjs).
use facis_zero_trust_demonst.Base.{◌≡◌, refl, [], ◌∷◌}
use facis_zero_trust_demonst.Pointers.{
  pointer_of, keys_of, escape_pointer, replace_char, join_slash, keys_of-pointer_of,
}

written : pointer_of ("a/b" ∷ "~1" ∷ "" ∷ []) ≡ "/a~1b/~01/"
unfolding pointer_of escape_pointer replace_char join_slash
written = refl

keys_of-pointer_of_example : keys_of (pointer_of ("a/b" ∷ "~1" ∷ "" ∷ [])) ≡ "a/b" ∷ "~1" ∷ "" ∷ []
keys_of-pointer_of_example = keys_of-pointer_of "a/b" ("~1" ∷ "" ∷ [])
