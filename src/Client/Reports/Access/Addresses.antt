-- ===== src/Client/Reports/Access/Addresses.antt =====
-- mumble/mumble.c, `mumble_push_address`: the text of an IPv4 address.
use lua_mumble.Base.{
  ℕ, zero, suc, ◌≤◌, List, [], ◌∷◌, Option, some, Bool, true, false, ◌≡◌, refl, sym, ◌∙◌, ap, arith,
  String, take, length, replicate, ◌&&◌, take-take,
}
use lua_mumble.Client.Events.{
  key, lua_string, lua_gettable, set_field, fields, event, is_nil, same_key, value_at, array,
}
use lua_mumble.Client.Reports.Access.{mumble_push_address, is_ipv4, text_or, all_zero}

all_zero_lem :
    (n : ℕ) (bytes : List ℕ)
    → n ≤ length bytes
    → all_zero (take n bytes) ≡ true
    → take n bytes ≡ replicate n 0
unfolding all_zero
all_zero_lem zero bytes h e = refl
all_zero_lem (suc n) [] h e = absurd (omega (arith, h))
all_zero_lem (suc n) (b ∷ rest) h e = ground (arith, h, e, all_zero_lem n rest)

first_and : (a b : Bool) → (a && b) ≡ true → a ≡ true
first_and true b e = refl
first_and false b e = ground (arith, e)

-- The four bytes that `inet_ntop` reads of a mapped IPv4 address are zero.
ipv4_bytes :
    (address : List ℕ)
    → length address ≡ 16
    → is_ipv4 address ≡ true
    → take 4 address ≡ 0 ∷ 0 ∷ 0 ∷ 0 ∷ []
unfolding is_ipv4
ipv4_bytes address n h =
    sym (take-take 4 8 address (omega arith))
    ∙ ap (take 4) (
        all_zero_lem 8 address (omega (arith, n))
          (first_and _ _ (first_and _ _ (first_and _ _ (first_and _ _ h)))))

-- The text of every IPv4 address is that of 0.0.0.0.
pub mumble_push_address_ipv4 :
    (inet_ntop : Bool → List ℕ → Option (List ℕ)) (format : String → List ℕ → List ℕ)
    (address text : List ℕ)
    → length address ≡ 16
    → is_ipv4 address ≡ true
    → inet_ntop false (0 ∷ 0 ∷ 0 ∷ 0 ∷ []) ≡ some text
    → value_at (mumble_push_address inet_ntop format address) (key "string") ≡ lua_string text
unfolding value_at mumble_push_address lua_gettable fields event set_field is_nil same_key text_or
    array
mumble_push_address_ipv4 inet_ntop format address text n h e =
    rw (h, ipv4_bytes address n h, e) refl
