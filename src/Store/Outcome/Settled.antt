-- ===== src/Store/Outcome/Settled.antt =====
-- `Expire` within a lookup: what the block that records an expiry returns and leaves.
use drop_point.Base.{
  ◌≡◌, ◌≢◌, refl, sym, ap, subst, ◌∙◌, Bool-cases, if◌then◌else◌, Bool, true, false, not, ◌&&◌, ℤ,
  Bytes, arith, inl, inr, ltb_ℤ,
}
use drop_point.DropPoint.{Status, DropPoint, expire, same_status}
use drop_point.Store.Table.{update_rows}
use drop_point.Store.Rows.{Tables}
use drop_point.Store.Sql.Hoare.{Triple, Triple-pure, Triple-if, Triple-exec, Triple-bind}
use drop_point.Store.DropPoints.{is_open_row, expired_row, mark_expired, set_expired, expire_if_due}

-- The tables once an expiry that is due was recorded in the drop point's open row.
abbrev pub settled : ℤ → DropPoint → Tables → Tables
settled now d t =
    if (expire d now).1
    then record t { drop_points = update_rows (is_open_row d.id) expired_row t.drop_points }
    else t

module _ (now : ℤ) where
  past_deadline : DropPoint → Bool
  past_deadline dp = not (ltb_ℤ now dp.expires_at) && same_status dp.status Status.opened

  not_due : (dp : DropPoint) → past_deadline dp ≡ false → expire dp now ≡ (dp, false)
  unfolding past_deadline expire same_status
  not_due dp h = ground arith

  due :
      (dp : DropPoint)
      → past_deadline dp ≡ true
      → expire dp now ≡ (record dp { status = Status.expired }, true)
  unfolding past_deadline expire same_status
  due dp h = ground arith

  pub expired_once : (dp : DropPoint) → (expire (expire dp now).0 now).1 ≡ false
  unfolding expire same_status
  expired_once dp = ground arith

  -- A drop point that is not left as expired was left alone.
  left_alone :
      (dp : DropPoint) → (expire dp now).0.status ≢ Status.expired → expire dp now ≡ (dp, false)
  left_alone dp h = elim (Bool-cases (past_deadline dp)) [
    | inl late ↦ absurd (h (ap (λ p. p.0.status) (due dp late)))
    | inr early ↦ not_due dp early
  ]

  pub expire-keeps :
      (K : DropPoint → Type 0) (dp : DropPoint)
      → ((status : Status) → K dp → K (record dp { status = status }))
      → K dp
      → K (expire dp now).0
  expire-keeps K dp keep k = elim (Bool-cases (past_deadline dp)) [
    | inl late ↦ subst (λ p. K p.0) (sym (due dp late)) (keep Status.expired k)
    | inr early ↦ subst (λ p. K p.0) (sym (not_due dp early)) k
  ]

module _ (t : Tables) (now : ℤ) where
  -- What the block that records an expiry returns and leaves, for a drop point with the property `F`.
  abbrev pub Looked : (DropPoint → Type 0) → DropPoint → Tables → Type 0
  Looked F d u =
      (found : DropPoint) × F found × (d ≡ (expire found now).0) × (u ≡ settled now found t)

  -- If the result is not expired, it is the recorded drop point and nothing changed.
  pub Looked-open :
      (F : DropPoint → Type 0) (d : DropPoint) (u : Tables)
      → Looked F d u
      → d.status ≢ Status.expired
      → F d × (u ≡ t) × ((expire d now).1 ≡ false)
  Looked-open F d u (found, f, same, left) open' =
      let alone = left_alone now found (λ e. open' (ap (λ x. x.status) same ∙ e)) in
      let is = same ∙ ap (λ p. p.0) alone in
      (
        subst F (sym is) f,
        left
            ∙ ap
                (λ b.
                  if b
                  then record t {
                    drop_points = update_rows (is_open_row found.id) expired_row t.drop_points;
                  }
                  else t)
                (ap (λ p. p.1) alone),
        subst (λ x. (expire x now).1 ≡ false) (sym is) (ap (λ p. p.1) alone),
      )

  pub expire_if_due-triple :
      (F : DropPoint → Type 0) (dp : DropPoint)
      → Triple (λ u. (u ≡ t) × F dp) (expire_if_due dp now) (Looked F) (λ u. u ≡ t)
  unfolding expire_if_due mark_expired set_expired past_deadline
  expire_if_due-triple F dp =
      Triple-if (past_deadline now dp)
        (λ h.
          Triple-bind (λ _ u. F dp × (u ≡ settled now dp t))
            (Triple-exec (set_expired dp.id)
              (λ u p. (p.1, rw (due now dp h) (ap (set_rows dp.id) p.0))) (λ u p. p.0))
            (λ _. Triple-pure _ (λ u k. (dp, k.0, rw (due now dp h) refl, k.1))))
        (λ h.
          Triple-pure dp (λ u p. (dp, p.1, rw (not_due now dp h) refl, rw (not_due now dp h) p.0)))
    where
      set_rows : Bytes → Tables → Tables
      set_rows id u = record u {
        drop_points = update_rows (is_open_row id) expired_row u.drop_points;
      }
