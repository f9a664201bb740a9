-- ===== src/Client/Methods/Ids.antt =====
-- mumble/user.c and mumble/channel.c: the channels that a method is given, and the links that come of them.
use lua_mumble.Base.{
  ℕ, List, [], ◌∷◌, ◌++◌, none, some, ◌≡◌, refl, Option, sym, ◌∙◌, ap, length, replicate, map,
}
use mathlib.Core.List.{append_assoc}
use lua_mumble.Client.Methods.{
  type_error, ids, bad_access, in_table, arguments, given_ids, table_ids, vararg_loop,
  last_argument, prepend,
}

pub table_all : (list : List ℕ) → table_ids (length list) (map some list) ≡ ids list
unfolding table_ids prepend
table_all [] = refl
table_all (id ∷ rest) = ap (prepend id) (table_all rest)

vararg_all :
    (last : ℕ) (list : List ℕ)
    → vararg_loop (some last) (map some list) ≡ ids (replicate (length list) last)
unfolding vararg_loop prepend
vararg_all last [] = refl
vararg_all last (id ∷ rest) = ap (prepend last) (vararg_all last rest)

last_of_all : (list : List ℕ) (last : ℕ) → last_argument (map some (list ++ last ∷ [])) ≡ some last
unfolding last_argument
last_of_all [] last = refl
last_of_all (a ∷ []) last = refl
last_of_all (a ∷ b ∷ rest) last = last_of_all (b ∷ rest) last

last_none : (a : Option ℕ) (list : List (Option ℕ)) → last_argument (a ∷ list ++ none ∷ []) ≡ none
unfolding last_argument
last_none a [] = refl
last_none a (b ∷ rest) = last_none b rest

last_some : (list : List (Option ℕ)) (last : ℕ) → last_argument (list ++ some last ∷ []) ≡ some last
unfolding last_argument
last_some [] last = refl
last_some (a ∷ []) last = refl
last_some (a ∷ b ∷ rest) last = last_some (b ∷ rest) last

vararg_wrong :
    (last : ℕ) (list : List ℕ) (rest : List (Option ℕ))
    → vararg_loop (some last) (map some list ++ none ∷ rest) ≡ type_error
unfolding vararg_loop prepend
vararg_wrong last [] rest = refl
vararg_wrong last (id ∷ list) rest = ap (prepend last) (vararg_wrong last list rest)

-- A table of channels gives all of them in its order. Channels as arguments give the last one, once for
-- each argument. An argument that is no channel, after none or some channels and before others of which the
-- last one is a channel, is an error of its type, and so is a first argument that is no channel. Where the
-- first argument is a channel and the last one is none, there is a bad access.
pub given_ids_lem :
    (list : List ℕ) (last first : ℕ) (others : List (Option ℕ))
    → (given_ids (in_table (length list) (map some list)) ≡ ids list)
      × (given_ids (arguments (map some (list ++ last ∷ [])))
          ≡ ids (replicate (length (list ++ last ∷ [])) last))
      × (given_ids (arguments (map some list ++ none ∷ (others ++ some last ∷ []))) ≡ type_error)
      × (given_ids (arguments (none ∷ others)) ≡ type_error)
      × (given_ids (arguments (some first ∷ others ++ none ∷ [])) ≡ bad_access)
unfolding given_ids vararg_loop
given_ids_lem list last first others = (
  table_all list,
  ap (λ o. vararg_loop o (map some (list ++ last ∷ []))) (last_of_all list last)
      ∙ vararg_all last (list ++ last ∷ []),
  ap (λ o. vararg_loop o (map some list ++ none ∷ (others ++ some last ∷ [])))
        (ap last_argument (sym (append_assoc (map some list) (none ∷ others) (some last ∷ [])))
          ∙ last_some (map some list ++ none ∷ others) last)
      ∙ vararg_wrong last list (others ++ some last ∷ []),
  refl,
  ap (λ o. vararg_loop o (some first ∷ others ++ none ∷ [])) (last_none (some first) others),
)
