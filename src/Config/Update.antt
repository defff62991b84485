-- ===== src/Config/Update.antt =====
-- Which configurations the manager of sdk/couchbase-core/src/configmanager.rs takes over, and what
-- that makes of its revision over any sequence of events.
use couchbase_rs.Prelude.{
  ◌+◌, ◌≤◌, ◌≡◌, ap, sym, ◌⊎◌, inl, inr, true, false, none, some, arith, Bool-cases, ltb→lt,
}
use couchbase_rs.Prelude.Integers.{ℤ, ltb_ℤ, ◌<ℤ◌, pos_part, neg_part, ℤ_injective}
use couchbase_rs.Config.{
  ParsedConfig, ConfigManager, less, equal, greater, cmp, then_by, partial_cmp, bucket_type_changed,
  is_greater, can_update_config, with_latest, take_config, send_taken, handle_config,
}

cmp-cases :
    (a b : ℤ)
    → ((cmp a b ≡ less) × (a <ℤ b))
      ⊎ ((cmp a b ≡ greater) × (b <ℤ a))
      ⊎ ((cmp a b ≡ equal) × (a ≡ b))
unfolding cmp
cmp-cases a b = elim (Bool-cases (ltb_ℤ a b)) [
  | inl below ↦ inl (rw (below), ltb→lt _ _ below)
  | inr no_less ↦ elim (Bool-cases (ltb_ℤ b a)) [
    | inl above ↦ inr (inl (rw (no_less, above), ltb→lt _ _ above))
    | inr no_more ↦ inr (inr (rw (no_less, no_more), ℤ_injective a b (ground arith)))
  ]
]

module _ {Node : Type 0} where
  -- A configuration of a later epoch, or of the same epoch and a later revision.
  abbrev pub Newer : ParsedConfig Node → ParsedConfig Node → Type 0
  Newer new old =
      (old.rev_epoch <ℤ new.rev_epoch)
      ⊎ ((old.rev_epoch ≡ new.rev_epoch) × (old.rev_id <ℤ new.rev_id))

  not_below : (new old : ParsedConfig Node) → Newer new old → new.rev_epoch <ℤ old.rev_epoch → ⊥
  not_below new old (inl above) below = omega arith
  not_below new old (inr (level, _)) below =
      omega (arith, below, ap pos_part level, ap neg_part level)

  not_later :
      (new old : ParsedConfig Node)
      → Newer new old
      → new.rev_epoch ≡ old.rev_epoch
      → pos_part new.rev_id + neg_part old.rev_id ≤ pos_part old.rev_id + neg_part new.rev_id
      → ⊥
  not_later new old (inl above) level id =
      omega (arith, above, ap pos_part level, ap neg_part level)
  not_later new old (inr (_, later)) level id = omega arith

  partial_cmp-Newer :
      (new old : ParsedConfig Node)
      → ((is_greater (partial_cmp new old) ≡ true) × Newer new old)
        ⊎ ((is_greater (partial_cmp new old) ≡ false) × (Newer new old → ⊥))
  unfolding partial_cmp then_by is_greater
  partial_cmp-Newer new old = elim (cmp-cases new.rev_epoch old.rev_epoch) [
    | inl (found, below) ↦ inr (rw (found), λ newer. not_below new old newer below)
    | inr (inl (found, above)) ↦ inl (rw (found), inl above)
    | inr (inr (found, level)) ↦ elim (cmp-cases new.rev_id old.rev_id) [
      | inl (then_found, below) ↦
          inr
            (rw (found, then_found), λ newer. not_later new old newer level (omega (arith, below)))
      | inr (inl (then_found, above)) ↦ inl (rw (found, then_found), inr (sym level, above))
      | inr (inr (then_found, same)) ↦ inr (
        rw (found, then_found),
        λ newer. not_later new old newer level (omega (arith, ap pos_part same, ap neg_part same)),
      )
    ]
  ]

  take_config_lem :
      (self : ConfigManager Node) (new : ParsedConfig Node)
      → ((bucket_type_changed new.bucket self.latest_config.bucket ≡ true)
            ⊎ Newer new self.latest_config
          → take_config self new ≡ (record self { latest_config = new }, some new))
        × (bucket_type_changed new.bucket self.latest_config.bucket ≡ false
            → (Newer new self.latest_config → ⊥)
            → take_config self new ≡ (self, none))
  unfolding take_config can_update_config
  take_config_lem self new = elim (partial_cmp-Newer new self.latest_config) [
    | inl (found, newer) ↦ (
      λ _. elim (Bool-cases (bucket_type_changed new.bucket self.latest_config.bucket)) [
        | inl changed ↦ rw (changed)
        | inr kept ↦ rw (kept, found)
      ],
      λ kept older. absurd (older newer),
    )
    | inr (found, older) ↦ (
      λ taken. elim taken [ inl changed ↦ rw (changed) | inr newer ↦ absurd (older newer) ],
      λ kept _. rw (kept, found),
    )
  ]

  -- A configuration is taken over exactly where its bucket is of another type or it is newer; then
  -- the latest version is its own, and otherwise nothing changes.
  pub handle_config_lem :
      (self : ConfigManager Node) (new : ParsedConfig Node)
      → ((bucket_type_changed new.bucket self.latest_config.bucket ≡ true)
            ⊎ Newer new self.latest_config
          → handle_config self new ≡ (with_latest self new, some new))
        × (bucket_type_changed new.bucket self.latest_config.bucket ≡ false
            → (Newer new self.latest_config → ⊥)
            → handle_config self new ≡ (self, none))
  unfolding handle_config send_taken
  handle_config_lem self new =
      let (taken, left) = take_config_lem self new in
      (λ why. ap send_taken (taken why), λ kept older. ap send_taken (left kept older))

  pub take_config-cases :
      (self : ConfigManager Node) (new : ParsedConfig Node)
      → ((take_config self new ≡ (record self { latest_config = new }, some new))
          × ((bucket_type_changed new.bucket self.latest_config.bucket ≡ true)
              ⊎ Newer new self.latest_config))
        ⊎ (take_config self new ≡ (self, none))
  take_config-cases self new =
      let (taken, left) = take_config_lem self new in
      elim (Bool-cases (bucket_type_changed new.bucket self.latest_config.bucket)) [
        | inl changed ↦ inl (taken (inl changed), inl changed)
        | inr kept ↦ elim (partial_cmp-Newer new self.latest_config) [
          | inl (_, newer) ↦ inl (taken (inr newer), inr newer)
          | inr (_, older) ↦ inr (left kept older)
        ]
      ]

  pub take_config-Newer :
      (self : ConfigManager Node) (new : ParsedConfig Node)
      → Newer new self.latest_config
      → take_config self new ≡ (record self { latest_config = new }, some new)
  take_config-Newer self new newer = let (taken, _) = take_config_lem self new in taken (inr newer)
