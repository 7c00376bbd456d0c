-- ===== src/Resolvers/Chained/First.antt =====
-- The first resolver of a chain that answers.
use hydra_dns.Base.{
  ◌≡◌, ◌↔◌, ◌⊎◌, refl, sym, ap, ◌∙◌, arith, [], ◌∷◌, List, Bool, true, false, Bool-cases, inl, inr,
  Bytes,
}
use hydra_dns.Dns.Packet.{Packet}
use hydra_dns.Resolvers.Answer.{
  Answer, answered, failed, Failure, context_cancelled, no_resolver, Origin, Resolver,
}
use hydra_dns.Resolvers.Chained.{chained_loop, chained_resolve}

-- Some resolver of the list answers, with these bytes and in this state, after those before it have
-- failed one after the other, and the request is not cancelled up to then.
pub data FirstAnswer {W : Type 0} (cancelled : W → Bool) (req : Packet) (req_bytes : Bytes)
    (out : Bytes) (origin : Origin) (w' : W) : List (Resolver W) → W → Type 0 where
  here :
      {r : Resolver W} {rs : List (Resolver W)} {w : W}
      → cancelled w ≡ false
      → r req req_bytes w ≡ (answered out origin, w')
      → FirstAnswer cancelled req req_bytes out origin w' (r ∷ rs) w
  later :
      {r : Resolver W} {rs : List (Resolver W)} {w v : W} {why : Failure}
      → cancelled w ≡ false
      → r req req_bytes w ≡ (failed why, v)
      → FirstAnswer cancelled req req_bytes out origin w' rs v
      → FirstAnswer cancelled req req_bytes out origin w' (r ∷ rs) w

pub Answer-cases :
    (a : Answer)
    → ((b : Bytes) × (o : Origin) × (a ≡ answered b o)) ⊎ ((why : Failure) × (a ≡ failed why))
Answer-cases (answered b o) = inl (b, o, refl)
Answer-cases (failed why) = inr (why, refl)

pair-eq {ℓ} : {A B : Type ℓ} {p : A × B} {a : A} {b : B} → p.0 ≡ a → p.1 ≡ b → p ≡ (a, b)
pair-eq e f i = (e i, f i)

module _ {W : Type 0} (cancelled : W → Bool) (req : Packet) (req_bytes : Bytes) where
  pub chained_loop-failed :
      (last why : Failure) (r : Resolver W) (rs : List (Resolver W)) (w : W)
      → cancelled w ≡ false
      → (r req req_bytes w).0 ≡ failed why
      → chained_loop cancelled last (r ∷ rs) req req_bytes w
        ≡ chained_loop cancelled why rs req req_bytes (r req req_bytes w).1
  unfolding chained_loop
  chained_loop-failed last why r rs w go a = simp (go, a)

  pub chained_loop-answered :
      (last : Failure) (b : Bytes) (o : Origin) (r : Resolver W) (rs : List (Resolver W)) (w : W)
      → cancelled w ≡ false
      → (r req req_bytes w).0 ≡ answered b o
      → chained_loop cancelled last (r ∷ rs) req req_bytes w ≡ (answered b o, (r req req_bytes w).1)
  unfolding chained_loop
  chained_loop-answered last b o r rs w go a = simp (go, a)

  pub chained_loop-single :
      (last : Failure) (r : Resolver W) (w : W)
      → cancelled w ≡ false
      → chained_loop cancelled last (r ∷ []) req req_bytes w ≡ r req req_bytes w
  unfolding chained_loop
  chained_loop-single last r w go = elim (Answer-cases (r req req_bytes w).0) [
    | inl (b, o, a) ↦ chained_loop-answered last b o r [] w go a ∙ sym (pair-eq a refl)
    | inr (why, a) ↦ chained_loop-failed last why r [] w go a ∙ sym (pair-eq a refl)
  ]

  chained_loop-cancelled :
      (last : Failure) (r : Resolver W) (rs : List (Resolver W)) (w : W)
      → cancelled w ≡ true
      → chained_loop cancelled last (r ∷ rs) req req_bytes w ≡ (failed context_cancelled, w)
  unfolding chained_loop
  chained_loop-cancelled last r rs w stop = simp stop

module _ {W : Type 0} (cancelled : W → Bool) (req : Packet) (req_bytes out : Bytes)
    (origin : Origin) (w' : W) where
  first-chained_loop :
      (last : Failure) (rs : List (Resolver W)) (w : W)
      → FirstAnswer cancelled req req_bytes out origin w' rs w
      → chained_loop cancelled last rs req req_bytes w ≡ (answered out origin, w')
  first-chained_loop last [] w h = elim h [ ]
  first-chained_loop last (r ∷ rs) w (here go e) =
      chained_loop-answered cancelled req req_bytes last out origin r rs w go (ap (λ p. p.0) e)
      ∙ ap (λ v. (answered out origin, v)) (ap (λ p. p.1) e)
  first-chained_loop last (r ∷ rs) w (later {v = v} {why = why} go e h) =
      chained_loop-failed cancelled req req_bytes last why r rs w go (ap (λ p. p.0) e)
      ∙ ap (λ u. chained_loop cancelled why rs req req_bytes u) (ap (λ p. p.1) e)
      ∙ first-chained_loop why rs v h

  chained_loop-first :
      (last : Failure) (rs : List (Resolver W)) (w : W)
      → chained_loop cancelled last rs req req_bytes w ≡ (answered out origin, w')
      → FirstAnswer cancelled req req_bytes out origin w' rs w
  unfolding chained_loop
  chained_loop-first last [] w e = absurd (ground (arith, e))
  chained_loop-first last (r ∷ rs) w e = elim (Bool-cases (cancelled w)) [
    | inl stop ↦
        absurd (ground (arith, e, chained_loop-cancelled cancelled req req_bytes last r rs w stop))
    | inr go ↦ elim (Answer-cases (r req req_bytes w).0) [
      | inl (b, o, a) ↦
          let whole : r req req_bytes w ≡ (answered out origin, w') =
            pair-eq a refl
            ∙ (sym (chained_loop-answered cancelled req req_bytes last b o r rs w go a) ∙ e) in
          here go whole
      | inr (why, a) ↦
          let step = chained_loop-failed cancelled req req_bytes last why r rs w go a in
          later go (pair-eq a refl) (chained_loop-first why rs _ (sym step ∙ e))
    ]
  ]

  -- For any context, request and state, a chain of resolvers answers with some bytes, and leaves a
  -- state, exactly if the first resolver that does not fail answers so, with every resolver before
  -- it run and failed in the order of the chain and no cancellation seen up to it.
  pub chained_resolve_answered_iff :
      (rs : List (Resolver W)) (w : W)
      → (chained_resolve cancelled rs req req_bytes w ≡ (answered out origin, w'))
        ↔ FirstAnswer cancelled req req_bytes out origin w' rs w
  unfolding chained_resolve
  chained_resolve_answered_iff rs w =
      (chained_loop-first no_resolver rs w, first-chained_loop no_resolver rs w)
