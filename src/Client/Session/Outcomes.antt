-- ===== src/Client/Session/Outcomes.antt =====
-- mumble/packet.c: what is known of a handler that returned.
use lua_mumble.Base.{
  List, Option, none, some, Bool, true, false, if◌then◌else◌, ◌≡◌, refl, sym, ap, arith, ◌>>=◌,
}
use mathlib.Core.Option.{some-injective}
use lua_mumble.Client.Events.{Call}
use lua_mumble.Client.Session.{MumbleClient}

pub some_eq : {A : Type 0} {a b : A} → some a ≡ some b → b ≡ a
some_eq {A} {a} {b} e = sym (some-injective a b e)

-- The state does not depend on the value that was read, and the calls do.
pub returned_parts :
    {A : Type 0} {x after : MumbleClient} {f : A → List Call} {calls : List Call} (o : Option A)
    → ◌>>=◌ {B = MumbleClient × List Call} o (λ a. some (x, f a)) ≡ some (after, calls)
    → (a : A) × (after ≡ x) × (calls ≡ f a)
returned_parts none e = absurd (ground (arith, e))
returned_parts (some a) e = (a, ap (λ p. p.0) (some_eq e), ap (λ p. p.1) (some_eq e))

pub if_true : {A : Type 0} (b : Bool) (x y : A) → b ≡ true → (if b then x else y) ≡ x
if_true true x y e = refl
if_true false x y e = absurd (ground (arith, e))

pub if_false : {A : Type 0} (b : Bool) (x y : A) → b ≡ false → (if b then x else y) ≡ y
if_false true x y e = absurd (ground (arith, e))
if_false false x y e = refl
