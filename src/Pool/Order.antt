-- ===== src/Pool/Order.antt =====
-- scripts/forcing_pool_queue.py: the order of the choices of `_pick_next`.
use backend_wrf.Base.{
  ◌≡◌, ◌≢◌, ◌≤◌, refl, string_eq, ℕ_eq, nat_eq, String, false, Bool-cases, inl, inr, Option, none,
  some, List, [], ◌∷◌, arith,
}
use backend_wrf.Pool.Pick.{Choice, Picked, nothing, to_probe, to_download, pick, least, before}

pub data Among (c : Choice) : List Choice → Type 0 where
  here : {cs : List Choice} → Among c (c ∷ cs)
  there : {d : Choice} {cs : List Choice} → Among c cs → Among c (d ∷ cs)

Among-least : (c : Choice) (cs : List Choice) → Among (least c cs) (c ∷ cs)
unfolding least
Among-least c [] = here
Among-least c (d ∷ cs) = elim (Bool-cases (before d c)) [
  | inl h ↦ rw h (there (Among-least d cs))
  | inr h ↦ rw h (skip (Among-least c cs))
]
  where
    skip : {x : Choice} → Among x (c ∷ cs) → Among x (c ∷ d ∷ cs)
    skip here = here
    skip (there m) = there (there m)

-- `least` never moves to a greater priority number.
least_priority : (c : Choice) (cs : List Choice) → (least c cs).priority ≤ c.priority
unfolding least before
least_priority c [] = ground arith
least_priority c (d ∷ cs) = ground (arith, least_priority d cs, least_priority c cs)

not_before : (x c : Choice) → before x c ≡ false → c.priority ≤ x.priority
unfolding before
not_before x c h = ground arith

least_priority_tail :
    (d : Choice) (cs : List Choice) → Among d cs → (c : Choice) → (least c cs).priority ≤ d.priority
unfolding least
least_priority_tail d [] m c = elim m [ ]
least_priority_tail d (x ∷ cs) here c = elim (Bool-cases (before d c)) [
  | inl h ↦ rw (h, least) (least_priority d cs)
  | inr h ↦ rw (h, least) (ground (arith, least_priority c cs, not_before d c h))
]
least_priority_tail d (x ∷ cs) (there m) c = least_priority_tail d cs m _

least_priority_all :
    (d c : Choice) (cs : List Choice) → Among d (c ∷ cs) → (least c cs).priority ≤ d.priority
least_priority_all d c cs here = least_priority c cs
least_priority_all d c cs (there m) = least_priority_tail d cs m c

-- what `_pick_next` does with the priorities of the files that are due
pub data TaskFirst (cs : List Choice) : Picked → Type 0 where
  idle : cs ≡ [] → TaskFirst cs nothing
  probes : {id : String} → ((d : Choice) → Among d cs → d.priority ≢ 0) → TaskFirst cs (to_probe id)
  downloads :
      {c : Choice}
      → Among c cs
      → ((d : Choice) → Among d cs → c.priority ≤ d.priority)
      → TaskFirst cs (to_download c)

pub pick-TaskFirst : (best : Option String) (cs : List Choice) → TaskFirst cs (pick best cs)
unfolding pick
pick-TaskFirst none [] = idle refl
pick-TaskFirst (some id) [] = probes (λ d m. elim m [ ])
pick-TaskFirst none (c ∷ cs) = downloads (Among-least c cs) (λ d m. least_priority_all d c cs m)
pick-TaskFirst (some id) (c ∷ cs) = elim (Bool-cases (nat_eq ((least c cs).priority) 0)) [
  | inl h ↦ rw h (downloads (Among-least c cs) (λ d m. least_priority_all d c cs m))
  | inr h ↦ rw h (probes (λ d m z. ground (arith, least_priority_all d c cs m)))
]
