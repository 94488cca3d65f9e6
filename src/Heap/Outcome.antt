-- ===== src/Heap/Outcome.antt =====
-- Results of code that may fault or run out of fuel, as src/heap.c's operations have them.
use cool_os.Prelude.{◌≡◌, refl}
use cool_os.Heap.{Run, ok, fault, out_of_fuel, ◌>>=◌}

pub ok-injective : {A : Type 0} (a b : A) → ok a ≡ ok b → a ≡ b
ok-injective a b h = cc

-- What runs in two steps to a result.
pub bind-ok :
    {A B : Type 0} (r : Run A) (f : A → Run B) (b : B)
    → (r >>= f) ≡ ok b
    → (a : A) × (r ≡ ok a) × (f a ≡ ok b)
bind-ok (ok a) f b h = (a, refl, h)
bind-ok fault f b h = absurd cc
bind-ok out_of_fuel f b h = absurd cc
