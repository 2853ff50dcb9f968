-- ===== src/Heartbeat/Records/Sorting.antt =====
-- The sort of futures_fund/heartbeat.py rearranges rows and loses none.
use gpt_market_neutral_crypt.Prelude.{
  ◌≡◌, ◌⊎◌, inl, inr, ◌↔◌, List, [], ◌∷◌, ◌++◌, String, In, Bool-cases,
}
use gpt_market_neutral_crypt.Heartbeat.{HeartbeatRecord}
use gpt_market_neutral_crypt.Heartbeat.Records.{key_le, insert_by, sort_by}

module _ (key : HeartbeatRecord → String × String) where
  insert_by-In :
      (x r : HeartbeatRecord) (rows : List HeartbeatRecord)
      → In x (insert_by key r rows) ↔ In x (r ∷ rows)
  unfolding insert_by
  insert_by-In x r [] = (λ h. h, λ h. h)
  insert_by-In x r (y ∷ rows) = elim (Bool-cases (key_le (key r) (key y))) [
    | inl le ↦ rw le (λ h. h, λ h. h)
    | inr gt ↦
        let rest = insert_by-In x r rows in
        rw gt (
          λ h. elim h [
            | inl same ↦ inr (inl same)
            | inr later ↦ elim (rest.0 later) [ inl own ↦ inl own | inr other ↦ inr (inr other) ]
          ],
          λ h. elim h [
            | inl own ↦ inr (rest.1 (inl own))
            | inr later ↦ elim later [ inl same ↦ inl same | inr other ↦ inr (rest.1 (inr other)) ]
          ],
        )
  ]

  pub sort_by-In :
      (x : HeartbeatRecord) (rows : List HeartbeatRecord) → In x (sort_by key rows) ↔ In x rows
  unfolding sort_by
  sort_by-In x [] = (λ h. h, λ h. h)
  sort_by-In x (r ∷ rows) =
      let first = insert_by-In x r (sort_by key rows) in
      let rest = sort_by-In x rows in
      (
        λ h. elim (first.0 h) [ inl own ↦ inl own | inr other ↦ inr (rest.0 other) ],
        λ h. first.1 (elim h [ inl own ↦ inl own | inr other ↦ inr (rest.1 other) ]),
      )

pub In-append :
    (x r : HeartbeatRecord) (rows : List HeartbeatRecord)
    → In x (rows ++ r ∷ []) ↔ (In x rows ⊎ (x ≡ r))
In-append x r [] = (
  λ h. elim h [ inl own ↦ inr own | inr empty ↦ absurd empty ],
  λ h. elim h [ inl empty ↦ absurd empty | inr own ↦ inl own ],
)
In-append x r (y ∷ rows) =
    let rest = In-append x r rows in
    (
      λ h. elim h [
        | inl same ↦ inl (inl same)
        | inr later ↦ elim (rest.0 later) [ inl old ↦ inl (inr old) | inr own ↦ inr own ]
      ],
      λ h. elim h [
        | inl old ↦ elim old [ inl same ↦ inl same | inr later ↦ inr (rest.1 (inl later)) ]
        | inr own ↦ inr (rest.1 (inr own))
      ],
    )
