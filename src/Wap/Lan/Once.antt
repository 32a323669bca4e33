-- ===== src/Wap/Lan/Once.antt =====
-- What the watcher binds, and that the state of the closer fits.
use go_fula.Prelude.{
  elem, ℕ, String, ◌≡◌, refl, Bool, true, false, not, Option, none, some, List, [], ◌∷◌, ◌++◌,
  if◌then◌else◌,
}
use go_fula.Wap.Lan.{
  MultiCloser, add, close_all, Watcher, registered, listened, bind_addr, bind_addrs, Event, tick,
  closes, stops, step, watch,
}

-- No address is bound twice.
abbrev pub Distinct : List String → Type 0
Distinct [] = Unit
Distinct (x ∷ xs) = (elem x xs ≡ false) × Distinct xs

-- After Close the closer keeps no listener.
unfoldable pub Tidy : MultiCloser → Type 0
Tidy mc = mc.closed ≡ true → mc.listeners ≡ []

-- What holds of the watcher at each moment.
abbrev pub Sound : Watcher → Type 0
Sound w = Distinct w.bound × Tidy w.closer

when-Sound :
    (b : Bool) (x y : Watcher)
    → (b ≡ true → Sound x)
    → (b ≡ false → Sound y)
    → Sound (if b then x else y)
when-Sound true x y f g = f refl
when-Sound false x y f g = g refl

when-Tidy :
    (b : Bool) (x y : Bool × MultiCloser)
    → (b ≡ true → Tidy x.1)
    → (b ≡ false → Tidy y.1)
    → Tidy (if b then x else y).1
when-Tidy true x y f g = f refl
when-Tidy false x y f g = g refl

add-Tidy : (l : ℕ) (mc : MultiCloser) → Tidy mc → Tidy (add l mc).1
unfolding add
add-Tidy l mc h =
    when-Tidy mc.closed (false, record mc { shut = l ∷ mc.shut })
      (true, record mc { listeners = mc.listeners ++ (l ∷ []) })
      (λ e. unfold Tidy in unfold Tidy in h) (λ e. unfold Tidy in (λ f. absurd (cc)))

registered-Sound :
    (addr : String) (v : Bool × MultiCloser) (w : Watcher)
    → elem addr w.bound ≡ false
    → Distinct w.bound
    → Tidy v.1
    → Sound (registered addr v w)
unfolding registered
registered-Sound addr (true, mc) w new h t = ((new, h), t)
registered-Sound addr (false, mc) w new h t = (h, t)

listened-Sound :
    (addr : String) (o : Option ℕ) (w : Watcher)
    → elem addr w.bound ≡ false
    → Sound w
    → Sound (listened addr o w)
unfolding listened
listened-Sound addr none w new h = h
listened-Sound addr (some l) w new h =
    registered-Sound addr (add l w.closer) w new h.0 (add-Tidy l w.closer h.1)

bind_addr-Sound :
    (addr : String) (o : Option ℕ) (w : Watcher) → Sound w → Sound (bind_addr addr o w)
unfolding bind_addr
bind_addr-Sound addr o w h =
    when-Sound (not w.running) w _ (λ e. h)
      (λ e. when-Sound (elem addr w.bound) w _ (λ f. h) (λ f. listened-Sound addr o w f h))

bind_addrs-Sound :
    (addrs : List (String × Option ℕ)) (w : Watcher) → Sound w → Sound (bind_addrs addrs w)
unfolding bind_addrs
bind_addrs-Sound [] w h = h
bind_addrs-Sound ((addr, o) ∷ rest) w h =
    bind_addrs-Sound rest (bind_addr addr o w) (bind_addr-Sound addr o w h)

close_all-Tidy : (mc : MultiCloser) → Tidy (close_all mc)
unfolding close_all Tidy
close_all-Tidy mc e = refl

step-Sound : (e : Event) (w : Watcher) → Sound w → Sound (step e w)
unfolding step
step-Sound (tick owned addrs) w h =
    when-Sound (not w.running) w _ (λ e. h)
      (λ e. when-Sound owned _ _ (λ f. h) (λ f. bind_addrs-Sound addrs w h))
step-Sound closes w h = (h.0, close_all-Tidy w.closer)
step-Sound stops w h = h

pub watch-Sound : (es : List Event) (w : Watcher) → Sound w → Sound (watch es w)
unfolding watch
watch-Sound [] w h = h
watch-Sound (e ∷ es) w h = watch-Sound es (step e w) (step-Sound e w h)
