-- ===== src/Prog/Assoc.antt =====
-- Binds regroup to the right.
use mathlib.Core.Path.{fun_ext}
use mpc_package.Base.{◌≡◌, refl, ap}
use mpc_package.Prog.{Prog, ret, draw, exchange, send, receive, ot_send, ot_receive, throw, ◌>>=◌}

pub bind_assoc :
    {A B C : Type 0} (m : Prog A) (f : A → Prog B) (g : B → Prog C)
    → (m >>= f >>= g) ≡ (m >>= λ a. f a >>= g)
bind_assoc (ret a) f g = refl
bind_assoc (draw k) f g = ap draw (fun_ext λ r. bind_assoc (k r) f g)
bind_assoc (exchange s k) f g = ap (exchange s) (fun_ext λ m. bind_assoc (k m) f g)
bind_assoc (send s k) f g = ap (send s) (bind_assoc k f g)
bind_assoc (receive k) f g = ap receive (fun_ext λ m. bind_assoc (k m) f g)
bind_assoc (ot_send o x y k) f g = ap (ot_send o x y) (bind_assoc k f g)
bind_assoc (ot_receive o c k) f g = ap (ot_receive o c) (fun_ext λ m. bind_assoc (k m) f g)
bind_assoc throw f g = refl
