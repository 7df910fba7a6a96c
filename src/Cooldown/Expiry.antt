-- ===== src/Cooldown/Expiry.antt =====
-- Proofs about when a cooldown runs out, in nanoseconds of the steady clock.
use seraphbot.Base.{
  ℕ, ◌+◌, ◌*◌, ◌≤◌, ◌<◌, ◌≡◌, refl, ◌∙◌, ◌↔◌, ◌⊎◌, inl, inr, Bool, true, false, ◌&&◌, ◌||◌, arith,
  Text, text_eq_refl, ℤ, pos, negsuc, pos_part, ltb_ℤ,
}
use seraphbot.Base.Dict
use seraphbot.Metadata.{CommandMetadata}
use seraphbot.Cooldown.{
  CooldownTracker, new_tracker, second, seconds_between, is_on_cooldown, record_usage,
}
use seraphbot.Cooldown.Laws.{holds, is_on_cooldown-holds, is_on_cooldown-record_usage}

-- The length of a cooldown. One that is not positive is switched off.
abbrev pub span : ℤ → ℕ
span cooldown = pos_part cooldown * second

holds_iff :
    (cooldown : ℤ) (last now : ℕ)
    → last ≤ now
    → (holds cooldown last now ≡ true) ↔ (now < last + span cooldown)
unfolding seconds_between
holds_iff (pos n) last now h = ground arith
holds_iff (negsuc n) last now h = ground arith

or3_iff :
    {A B C : Type 0} (a b c : Bool)
    → (a ≡ true) ↔ A
    → (b ≡ true) ↔ B
    → (c ≡ true) ↔ C
    → ((a || b || c) ≡ true) ↔ (A ⊎ (B ⊎ C))
or3_iff true b c f g h = ((λ _. inl (f.0 refl)), (λ _. refl))
or3_iff false true c f g h = ((λ _. inr (inl (g.0 refl))), (λ _. refl))
or3_iff false false true f g h = ((λ _. inr (inr (h.0 refl))), (λ _. refl))
or3_iff false false false f g h =
    ((λ e. cc), (λ x. elim x [ inl a ↦ f.1 a | inr (inl b) ↦ g.1 b | inr (inr c) ↦ h.1 c ]))

-- The user who has used a command is refused it again exactly until each of the three cooldowns
-- has passed, to the nanosecond, on a clock that does not run backwards.
pub is_on_cooldown_until :
    (t : CooldownTracker) (c u : Text) (meta : CommandMetadata) (at now : ℕ)
    → at ≤ now
    → (is_on_cooldown (record_usage t c u at) c u meta now ≡ true) ↔ (
        (now < at + span meta.global_cooldown)
        ⊎ ((now < at + span meta.command_cooldown) ⊎ (now < at + span meta.user_cooldown)))
is_on_cooldown_until t c u meta at now h =
    rw (is_on_cooldown-record_usage t c c u u meta at now, text_eq_refl c, text_eq_refl u)
      (or3_iff (holds meta.global_cooldown at now) (holds meta.command_cooldown at now)
        (holds meta.user_cooldown at now) (holds_iff meta.global_cooldown at now h)
        (holds_iff meta.command_cooldown at now h) (holds_iff meta.user_cooldown at now h))

or_nothing : (g c u : Bool) → (g || c && false || u && false) ≡ g
or_nothing g c u = ground arith

is_on_cooldown-new :
    (d v : Text) (meta : CommandMetadata) (now : ℕ)
    → is_on_cooldown new_tracker d v meta now ≡ holds meta.global_cooldown 0 now
unfolding new_tracker
is_on_cooldown-new d v meta now =
    is_on_cooldown-holds new_tracker d v meta now
    ∙ rw (Dict.lookup-nil d, Dict.lookup-nil d)
        (or_nothing (holds meta.global_cooldown 0 now) (ltb_ℤ (pos 0) meta.command_cooldown)
          (ltb_ℤ (pos 0) meta.user_cooldown))

-- Before any use, a command is refused exactly while its global cooldown is longer than the time
-- since the epoch of the steady clock, though nothing has been used yet.
pub is_on_cooldown_unused :
    (d v : Text) (meta : CommandMetadata) (now : ℕ)
    → (is_on_cooldown new_tracker d v meta now ≡ true) ↔ (now < span meta.global_cooldown)
is_on_cooldown_unused d v meta now =
    let (to, from) = holds_iff meta.global_cooldown 0 now (omega arith) in
    rw is_on_cooldown-new ((λ e. omega (arith, to e)), (λ l. from (omega arith)))
