-- ===== src/Permission/Roles.antt =====
-- Proofs about the roles, and what `hasPermission` decides.
use seraphbot.Base.{
  ℕ, ◌≡◌, refl, sym, ap, ◌∙◌, ◌↔◌, ◌⊎◌, inl, inr, Bool, true, false, not, ◌&&◌, ◌||◌, List, [], ◌∷◌,
  arith, leb, if◌then◌else◌, any_of, Text, codes, text_eq,
}
use seraphbot.CommandParser.{CommandContext}
use seraphbot.Metadata.{CommandMetadata}
use seraphbot.Permission.{
  contains, is_broadcaster, is_moderator, is_vip, is_subscriber, no_users, has_permission,
}

any_of_mono {ℓ} :
    {A : Type ℓ} (p q : A → Bool) (xs : List A)
    → ((x : A) → p x ≡ true → q x ≡ true)
    → any_of p xs ≡ true
    → any_of q xs ≡ true
any_of_mono p q [] h e = cc
any_of_mono p q (x ∷ xs) h e = ground (arith, h x, any_of_mono p q xs h)

-- Each role has the rights of the roles below it: a broadcaster those of a moderator, a moderator
-- those of a VIP, a VIP those of a subscriber.
pub roles_nested :
    (ctx : CommandContext)
    → (is_broadcaster ctx ≡ true → is_moderator ctx ≡ true)
      × (is_moderator ctx ≡ true → is_vip ctx ≡ true)
      × (is_vip ctx ≡ true → is_subscriber ctx ≡ true)
unfolding is_broadcaster is_moderator is_vip is_subscriber
roles_nested ctx = (
  any_of_mono _ _ ctx.message.badges (λ x e. ground arith),
  any_of_mono _ _ ctx.message.badges (λ x e. ground arith),
  any_of_mono _ _ ctx.message.badges (λ x e. ground arith),
)

no_users-contains :
    (users : List Text) (user : Text)
    → (not (no_users users) && contains users user) ≡ contains users user
no_users-contains [] user = refl
no_users-contains (u ∷ us) user = refl

abbrev roles_ladder : Bool → Bool → Bool → Bool → Bool → Bool → Bool
roles_ladder m a v b s d =
    if m && not a then false else if v && not b then false else if s && not d then false else true

roles_ladder_to :
    (m a v b s d : Bool)
    → roles_ladder m a v b s d ≡ true
    → (m ≡ true → a ≡ true) × (v ≡ true → b ≡ true) × (s ≡ true → d ≡ true)
roles_ladder_to m a v b s d h = ((λ e. ground arith), (λ e. ground arith), (λ e. ground arith))

roles_ladder_from :
    (m a v b s d : Bool)
    → (m ≡ true → a ≡ true)
    → (v ≡ true → b ≡ true)
    → (s ≡ true → d ≡ true)
    → roles_ladder m a v b s d ≡ true
roles_ladder_from m a v b s d f g h = ground arith

named_or_iff {ℓ} :
    {P : Type ℓ} (c r : Bool)
    → (r ≡ true → P)
    → (P → r ≡ true)
    → ((if c then true else r) ≡ true) ↔ ((c ≡ true) ⊎ P)
named_or_iff true r f g = ((λ _. inl refl), (λ _. refl))
named_or_iff false r f g = ((λ e. inr (f e)), (λ x. elim x [ inl e ↦ cc | inr p ↦ g p ]))

-- A user passes exactly if the list of allowed users names him, or if he has every role that the
-- command asks for.
pub has_permission_iff :
    (ctx : CommandContext) (meta : CommandMetadata)
    → (has_permission ctx meta ≡ true) ↔ (
        (contains meta.allowed_users ctx.message.user ≡ true)
        ⊎ ((meta.mod_only ≡ true → is_moderator ctx ≡ true)
            × (meta.vip_only ≡ true → is_vip ctx ≡ true)
            × (meta.subscriber_only ≡ true → is_subscriber ctx ≡ true)))
unfolding has_permission
has_permission_iff ctx meta = rw no_users-contains (
    named_or_iff (contains meta.allowed_users ctx.message.user) _
      (roles_ladder_to meta.mod_only (is_moderator ctx) meta.vip_only (is_vip ctx)
        meta.subscriber_only (is_subscriber ctx))
      (λ (f, g, h).
        roles_ladder_from meta.mod_only (is_moderator ctx) meta.vip_only (is_vip ctx)
          meta.subscriber_only (is_subscriber ctx) f g h))

-- The broadcaster may use every command.
pub has_permission_broadcaster :
    (ctx : CommandContext) (meta : CommandMetadata)
    → is_broadcaster ctx ≡ true
    → has_permission ctx meta ≡ true
has_permission_broadcaster ctx meta b =
    let (to_mod, to_vip, to_sub) = roles_nested ctx in
    (has_permission_iff ctx meta).1
      (inr ((λ _. to_mod b), (λ _. to_vip (to_mod b)), (λ _. to_sub (to_vip (to_mod b)))))

-- What a badge is worth: the roles of a chat, from the lowest to the broadcaster.
abbrev pub rank_of : Text → ℕ
rank_of badge =
    if text_eq badge (codes "broadcaster")
    then 4
    else if text_eq badge (codes "moderator")
    then 3
    else if text_eq badge (codes "vip")
    then 2
    else if text_eq badge (codes "subscriber")
    then 1
    else 0

higher : ℕ → ℕ → ℕ
higher m n = if leb n m then m else n

-- The best of the badges.
unfoldable pub highest : List Text → ℕ
unfolding higher
highest [] = 0
highest (badge ∷ badges) = higher (rank_of badge) (highest badges)

-- The rank that a command asks for: that of its most demanding setting.
abbrev pub required_rank : CommandMetadata → ℕ
required_rank meta =
    if meta.mod_only then 3 else if meta.vip_only then 2 else if meta.subscriber_only then 1 else 0

leb-higher : (k m n : ℕ) → leb k (higher m n) ≡ (if leb k m then true else leb k n)
unfolding higher
leb-higher k m n = ground arith

rank_tests :
    (b m v s : Bool)
    → (leb 3 (if b then 4 else if m then 3 else if v then 2 else if s then 1 else 0) ≡ (m || b))
      × (leb 2 (if b then 4 else if m then 3 else if v then 2 else if s then 1 else 0)
          ≡ (v || m || b))
      × (leb 1 (if b then 4 else if m then 3 else if v then 2 else if s then 1 else 0)
          ≡ (s || v || m || b))
rank_tests b m v s = (ground arith, ground arith, ground arith)

-- A test of the badges that holds from a rank on is a test of the best of them.
any_of-highest :
    (p : Text → Bool) (k : ℕ) (badges : List Text)
    → leb k 0 ≡ false
    → ((badge : Text) → leb k (rank_of badge) ≡ p badge)
    → any_of p badges ≡ leb k (highest badges)
unfolding highest
any_of-highest p k [] z h = sym z
any_of-highest p k (badge ∷ badges) z h =
    ap (λ c. if p badge then true else c) (any_of-highest p k badges z h)
    ∙ (ap (λ c. if c then true else leb k (highest badges)) (sym (h badge))
        ∙ sym (leb-higher k (rank_of badge) (highest badges)))

is_moderator-highest :
    (ctx : CommandContext) → is_moderator ctx ≡ leb 3 (highest ctx.message.badges)
unfolding is_moderator
is_moderator-highest ctx =
    any_of-highest _ 3 ctx.message.badges refl (λ badge. (rank_tests _ _ _ _).0)

is_vip-highest : (ctx : CommandContext) → is_vip ctx ≡ leb 2 (highest ctx.message.badges)
unfolding is_vip
is_vip-highest ctx = any_of-highest _ 2 ctx.message.badges refl (λ badge. (rank_tests _ _ _ _).1)

is_subscriber-highest :
    (ctx : CommandContext) → is_subscriber ctx ≡ leb 1 (highest ctx.message.badges)
unfolding is_subscriber
is_subscriber-highest ctx =
    any_of-highest _ 1 ctx.message.badges refl (λ badge. (rank_tests _ _ _ _).2)

by_rank :
    (named m v s : Bool) (h : ℕ)
    → (if named
        then true
        else if m && not (leb 3 h)
        then false
        else if v && not (leb 2 h)
        then false
        else if s && not (leb 1 h)
        then false
        else true)
      ≡ (named || leb (if m then 3 else if v then 2 else if s then 1 else 0) h)
by_rank named m v s h = ground arith

-- A user passes exactly if the list of allowed users names him, or if the best of his badges has
-- at least the rank that the command asks for: 4 for a broadcaster, 3 for a moderator, 2 for a
-- VIP, 1 for a subscriber, and 0 for any other badge or none.
pub has_permission_by_rank :
    (ctx : CommandContext) (meta : CommandMetadata)
    → has_permission ctx meta ≡ (
        contains meta.allowed_users ctx.message.user
        || leb (required_rank meta) (highest ctx.message.badges))
unfolding has_permission
has_permission_by_rank ctx meta = rw no_users-contains (
    rw (is_moderator-highest ctx, is_vip-highest ctx, is_subscriber-highest ctx)
      (by_rank (contains meta.allowed_users ctx.message.user) meta.mod_only meta.vip_only
        meta.subscriber_only (highest ctx.message.badges)))
