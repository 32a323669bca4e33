-- ===== src/Wap/Lan/Shut.antt =====
-- What becomes of the listeners that the watcher opens.
use go_fula.Prelude.{
  elem, ℕ, String, ◌≡◌, ◌∙◌, refl, sym, ap, Bool, true, false, not, Option, none, some, List, [],
  ◌∷◌, ◌++◌, ◌⊎◌, inl, inr, if◌then◌else◌, subst, either,
}
use go_fula.Wap.Lan.{
  MultiCloser, add, close_all, Watcher, registered, listened, bind_addr, bind_addrs, Event, tick,
  closes, stops, step, watch,
}
use go_fula.Wap.Lan.Once.{Sound, Distinct, Tidy, watch-Sound}

-- A listener is one of a list.
abbrev pub Among : ℕ → List ℕ → Type 0
Among l [] = ⊥
Among l (x ∷ xs) = (l ≡ x) ⊎ Among l xs

-- The listener that net.Listen gives, if the watcher calls it for the address.
unfoldable pub obtained_at : String → Option ℕ → Watcher → List ℕ
obtained_at addr none w = []
obtained_at addr (some l) w = if w.running then (if elem addr w.bound then [] else l ∷ []) else []

unfoldable pub obtained_in : List (String × Option ℕ) → Watcher → List ℕ
obtained_in [] w = []
obtained_in ((addr, o) ∷ rest) w = obtained_at addr o w ++ obtained_in rest (bind_addr addr o w)

unfoldable pub obtained_on : Event → Watcher → List ℕ
obtained_on (tick owned addrs) w =
    if w.running then (if owned then [] else obtained_in addrs w) else []
obtained_on _ w = []

-- All the listeners that the watcher opens along the events.
unfoldable pub obtained : List Event → Watcher → List ℕ
obtained [] w = []
obtained (e ∷ es) w = obtained_on e w ++ obtained es (step e w)

-- A listener is kept by the closer, or was closed.
abbrev Held : ℕ → Watcher → Type 0
Held l w = Among l w.closer.listeners ⊎ Among l w.closer.shut

in_left : (l : ℕ) (xs ys : List ℕ) → Among l xs → Among l (xs ++ ys)
in_left l [] ys h = absurd h
in_left l (x ∷ xs) ys (inl e) = inl e
in_left l (x ∷ xs) ys (inr h) = inr (in_left l xs ys h)

in_right : (l : ℕ) (xs ys : List ℕ) → Among l ys → Among l (xs ++ ys)
in_right l [] ys h = h
in_right l (x ∷ xs) ys h = inr (in_right l xs ys h)

in_parts : (l : ℕ) (xs ys : List ℕ) → Among l (xs ++ ys) → Among l xs ⊎ Among l ys
in_parts l [] ys h = inr h
in_parts l (x ∷ xs) ys (inl e) = inl (inl e)
in_parts l (x ∷ xs) ys (inr h) = elim (in_parts l xs ys h) [ inl a ↦ inl (inr a) | inr b ↦ inr b ]

registered_closer :
    (addr : String) (v : Bool × MultiCloser) (w : Watcher) → (registered addr v w).closer ≡ v.1
unfolding registered
registered_closer addr (true, mc) w = refl
registered_closer addr (false, mc) w = refl

Kept : ℕ → MultiCloser → Type 0
Kept k mc = Among k mc.listeners ⊎ Among k mc.shut

added : (l : ℕ) (mc : MultiCloser) → Kept l (add l mc).1
unfolding add Kept
added l mc =
    either {A = Bool × MultiCloser} (λ v. Kept l v.1) mc.closed
      (false, record mc { shut = l ∷ mc.shut })
      (true, record mc { listeners = mc.listeners ++ (l ∷ []) }) (inr (inl refl))
      (inl (in_right l mc.listeners (l ∷ []) (inl refl)))

add_keeps : (k l : ℕ) (mc : MultiCloser) → Kept k mc → Kept k (add l mc).1
unfolding add Kept
add_keeps k l mc h =
    either {A = Bool × MultiCloser} (λ v. Kept k v.1) mc.closed
      (false, record mc { shut = l ∷ mc.shut })
      (true, record mc { listeners = mc.listeners ++ (l ∷ []) })
      (elim h [ inl a ↦ inl a | inr b ↦ inr (inr b) ])
      (elim h [ inl a ↦ inl (in_left k mc.listeners (l ∷ []) a) | inr b ↦ inr b ])

bind_addr-Held :
    (k : ℕ) (addr : String) (o : Option ℕ) (w : Watcher) → Held k w → Held k (bind_addr addr o w)
unfolding bind_addr listened Kept
bind_addr-Held k addr none w h =
    either (Held k) (not w.running) w _ h (either (Held k) (elem addr w.bound) w _ h h)
bind_addr-Held k addr (some l) w h = either (Held k) (not w.running) w _ h (
    either (Held k) (elem addr w.bound) w _ h
      (subst (Kept k) (sym (registered_closer addr (add l w.closer) w)) (add_keeps k l w.closer h)))

bind_addrs-Held :
    (k : ℕ) (addrs : List (String × Option ℕ)) (w : Watcher)
    → Held k w
    → Held k (bind_addrs addrs w)
unfolding bind_addrs
bind_addrs-Held k [] w h = h
bind_addrs-Held k ((addr, o) ∷ rest) w h =
    bind_addrs-Held k rest (bind_addr addr o w) (bind_addr-Held k addr o w h)

step-Held : (k : ℕ) (e : Event) (w : Watcher) → Held k w → Held k (step e w)
unfolding step close_all
step-Held k (tick owned addrs) w h =
    either (Held k) (not w.running) w _ h
      (either (Held k) owned _ _ h (bind_addrs-Held k addrs w h))
step-Held k closes w h = inr (elim h [
  | inl a ↦ in_left k w.closer.listeners w.closer.shut a
  | inr b ↦ in_right k w.closer.listeners w.closer.shut b
])
step-Held k stops w h = h

watch-Held : (k : ℕ) (es : List Event) (w : Watcher) → Held k w → Held k (watch es w)
unfolding watch
watch-Held k [] w h = h
watch-Held k (e ∷ es) w h = watch-Held k es (step e w) (step-Held k e w h)

at_branch :
    (k l : ℕ) (running bound : Bool) (w x : Watcher)
    → (k ≡ l → Held k x)
    → Among k (if running then (if bound then [] else l ∷ []) else [])
    → Held k (if not running then w else if bound then w else x)
at_branch k l true true w x f h = absurd h
at_branch k l true false w x f (inl e) = f e
at_branch k l true false w x f (inr h) = absurd h
at_branch k l false bound w x f h = absurd h

obtained_at-Held :
    (k : ℕ) (addr : String) (o : Option ℕ) (w : Watcher)
    → Among k (obtained_at addr o w)
    → Held k (bind_addr addr o w)
unfolding obtained_at bind_addr listened Kept
obtained_at-Held k addr none w h = absurd h
obtained_at-Held k addr (some l) w h =
    at_branch k l w.running (elem addr w.bound) w (registered addr (add l w.closer) w)
      (λ e.
        subst (Kept k) (sym (registered_closer addr (add l w.closer) w))
          (subst (λ n. Kept n (add l w.closer).1) (sym e) (added l w.closer)))
      h

obtained_in-Held :
    (k : ℕ) (addrs : List (String × Option ℕ)) (w : Watcher)
    → Among k (obtained_in addrs w)
    → Held k (bind_addrs addrs w)
unfolding obtained_in bind_addrs
obtained_in-Held k [] w h = absurd h
obtained_in-Held k ((addr, o) ∷ rest) w h =
    let next = bind_addr addr o w in
    elim (in_parts k (obtained_at addr o w) (obtained_in rest next) h) [
      | inl now ↦ bind_addrs-Held k rest next (obtained_at-Held k addr o w now)
      | inr later ↦ obtained_in-Held k rest next later
    ]

tick_branch :
    (k : ℕ) (running owned : Bool) (w x y : Watcher) (opened : List ℕ)
    → (Among k opened → Held k y)
    → Among k (if running then (if owned then [] else opened) else [])
    → Held k (if not running then w else if owned then x else y)
tick_branch k true true w x y opened f h = absurd h
tick_branch k true false w x y opened f h = f h
tick_branch k false owned w x y opened f h = absurd h

obtained_on-Held : (k : ℕ) (e : Event) (w : Watcher) → Among k (obtained_on e w) → Held k (step e w)
unfolding obtained_on step
obtained_on-Held k (tick owned addrs) w h =
    tick_branch k w.running owned w _ (bind_addrs addrs w) (obtained_in addrs w)
      (obtained_in-Held k addrs w) h
obtained_on-Held k closes w h = absurd h
obtained_on-Held k stops w h = absurd h

obtained-Held :
    (k : ℕ) (es : List Event) (w : Watcher) → Among k (obtained es w) → Held k (watch es w)
unfolding obtained watch
obtained-Held k [] w h = absurd h
obtained-Held k (e ∷ es) w h = elim (in_parts k (obtained_on e w) (obtained es (step e w)) h) [
  | inl now ↦ watch-Held k es (step e w) (obtained_on-Held k e w now)
  | inr later ↦ obtained-Held k es (step e w) later
]

abbrev Closed : Watcher → Type 0
Closed w = w.closer.closed ≡ true

add-closed : (l : ℕ) (mc : MultiCloser) → mc.closed ≡ true → (add l mc).1.closed ≡ true
unfolding add
add-closed l mc h =
    either {A = Bool × MultiCloser} (λ v. v.1.closed ≡ true) mc.closed
      (false, record mc { shut = l ∷ mc.shut })
      (true, record mc { listeners = mc.listeners ++ (l ∷ []) }) h h

listened-Closed :
    (addr : String) (o : Option ℕ) (w : Watcher) → Closed w → Closed (listened addr o w)
unfolding listened
listened-Closed addr none w h = h
listened-Closed addr (some l) w h =
    ap (λ c. c.closed) (registered_closer addr (add l w.closer) w) ∙ add-closed l w.closer h

bind_addrs-Closed :
    (addrs : List (String × Option ℕ)) (w : Watcher) → Closed w → Closed (bind_addrs addrs w)
unfolding bind_addrs bind_addr
bind_addrs-Closed [] w h = h
bind_addrs-Closed ((addr, o) ∷ rest) w h = bind_addrs-Closed rest (bind_addr addr o w) (
    either Closed (not w.running) w _ h
      (either Closed (elem addr w.bound) w _ h (listened-Closed addr o w h)))

watch-Closed : (es : List Event) (w : Watcher) → Closed w → Closed (watch es w)
unfolding watch step close_all
watch-Closed [] w h = h
watch-Closed (tick owned addrs ∷ es) w h =
    watch-Closed es (step (tick owned addrs) w) (
      either Closed (not w.running) w _ h (either Closed owned _ _ h (bind_addrs-Closed addrs w h)))
watch-Closed (closes ∷ es) w h = watch-Closed es (step closes w) refl
watch-Closed (stops ∷ es) w h = watch-Closed es (step stops w) h

closes-Closed :
    (before after : List Event) (w : Watcher) → Closed (watch (before ++ (closes ∷ after)) w)
unfolding watch step close_all
closes-Closed [] after w = watch-Closed after (step closes w) refl
closes-Closed (e ∷ before) after w = closes-Closed before after (step e w)

-- Whatever the ticks bring before and behind the end of the server, the last events included that the
-- watcher runs while it closes: the closer is closed and keeps no listener, each listener that it kept
-- at the start and each that the watcher opened was closed, and no address was bound twice.
pub watch-Shut :
    (before after : List Event) (w : Watcher)
    → Sound w
    → let es = before ++ (closes ∷ after) in
      let v = watch es w in
      (v.closer.closed ≡ true)
      × (v.closer.listeners ≡ [])
      × ((l : ℕ) → Among l w.closer.listeners ⊎ Among l (obtained es w) → Among l v.closer.shut)
      × Distinct v.bound
unfolding Tidy
watch-Shut before after w h =
    let es = before ++ (closes ∷ after) in
    let v = watch es w in
    let closed = closes-Closed before after w in
    let (distinct, tidy) = watch-Sound es w h in
    let no_listeners : v.closer.listeners ≡ [] = tidy closed in
    let shut : (l : ℕ) → Held l v → Among l v.closer.shut = λ l held. elim held [
      | inl kept ↦ absurd (subst (Among l) no_listeners kept)
      | inr gone ↦ gone
    ] in
    (
      closed,
      no_listeners,
      λ l k. elim k [
        | inl kept ↦ shut l (watch-Held l es w (inl kept))
        | inr opened ↦ shut l (obtained-Held l es w opened)
      ],
      distinct,
    )
