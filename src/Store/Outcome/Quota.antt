-- ===== src/Store/Outcome/Quota.antt =====
-- `CreateDropPointWithinQuota`: an API token never opens more drop points than it may.
use drop_point.Base.{
  ℕ, ◌≡◌, refl, Bool, true, false, not, ◌||◌, ◌∷◌, ℤ, pos, ◌≤ℤ◌, arith, int_laws, if◌then◌else◌,
  ltb_ℤ, leb_ℤ, ltb_ℤ→lt, is_empty, ◌==◌, ◌⊎◌, inl, inr, Bool-cases, if_elim,
}
use drop_point.Errors.{
  Result, ok, err, check_constraint, unique_constraint, active_drop_point_quota_exceeded,
  invalid_argument,
}
use drop_point.DropPoint.{DropPoint}
use drop_point.Store.Table.{count_rows}
use drop_point.Store.Rows.{Tables, drop_point_row}
use drop_point.Store.Sql.{Conn, pure, fail, ◌>>=◌, exec, healthy}
use drop_point.Store.Sql.Hoare.{
  Post, Triple, Triple-pure, Triple-fail, Triple-if, Triple-exec, Triple-bind, after_value,
}
use drop_point.Store.DropPoints.{
  has_id, has_drop_token_hash, is_active, insert_checked, insert_within_quota,
  create_drop_point_within_quota,
}

module _ (dp : DropPoint) (max_active now : ℤ) where
  abbrev active : Tables → ℕ
  active t = count_rows (is_active dp.api_token_id now) t.drop_points

  -- The drop point is the one new row, and the token's active drop points are within its quota.
  abbrev pub Stored : Tables → Tables → Type 0
  Stored t u =
      (u.drop_points ≡ drop_point_row dp ∷ t.drop_points)
      × (u.submissions ≡ t.submissions)
      × (pos (active u) ≤ℤ max_active)

  abbrev Inserted : Tables → ℕ → Tables → Type 0
  Inserted t n u = (n ≡ 0) ⊎ Stored t u

  grows :
      (t : Tables)
      → ltb_ℤ (pos (active t)) max_active ≡ true
      → pos (active (record t { drop_points = drop_point_row dp ∷ t.drop_points })) ≤ℤ max_active
  unfolding count_rows
  grows t h =
      let below = ltb_ℤ→lt (pos (active t)) max_active h in
      elim (Bool-cases (is_active dp.api_token_id now (drop_point_row dp))) [
        | inl e ↦ rw e (omega (int_laws, below))
        | inr e ↦ rw e (omega (int_laws, below))
      ]

  insert_within_quota-Post :
      (t : Tables)
      → Post
          (Inserted t)
          (λ _. Unit {0})
          (insert_within_quota (drop_point_row dp) max_active now t).0
          (insert_within_quota (drop_point_row dp) max_active now t).1
  unfolding insert_within_quota insert_checked drop_point_row
  insert_within_quota-Post t =
      if_elim Good (ltb_ℤ (pos (active t)) max_active) (insert_checked (drop_point_row dp) t)
        (ok 0, t) checked (λ full. inl refl)
    where
      stored :
          ltb_ℤ (pos (active t)) max_active ≡ true
          → Stored t (record t { drop_points = drop_point_row dp ∷ t.drop_points })
      stored below = (refl, refl, grows t below)

      taken : Bool
      taken =
          not (count_rows (has_id dp.id) t.drop_points == 0)
          || not (count_rows (has_drop_token_hash dp.drop_token_hash) t.drop_points == 0)

      after : Tables
      after = record t { drop_points = drop_point_row dp ∷ t.drop_points }

      Good : Result ℕ × Tables → Type 0
      Good out = Post (Inserted t) (λ _. Unit {0}) out.0 out.1

      checked :
          ltb_ℤ (pos (active t)) max_active ≡ true → Good (insert_checked (drop_point_row dp) t)
      checked below =
          if_elim Good (is_empty dp.display_name) (err check_constraint, t)
            (if taken then (err unique_constraint, t) else (ok 1, after)) (λ _. tt)
            (λ _.
              if_elim Good taken (err unique_constraint, t) (ok 1, after) (λ _. tt)
                (λ _. inr (stored below)))

  pub create_drop_point-triple :
      (t : Tables)
      → Triple
          (λ u. u ≡ t)
          (create_drop_point_within_quota dp max_active now)
          (λ _. Stored t)
          (λ _. Unit {0})
  unfolding create_drop_point_within_quota
  create_drop_point-triple t =
      Triple-if (leb_ℤ max_active (pos 0)) (λ _. Triple-fail invalid_argument (λ u p. tt))
        (λ _.
          Triple-bind (Inserted t)
            (Triple-exec _ (λ u p. rw p (insert_within_quota-Post t)) (λ u p. tt))
            (λ n.
              Triple-if (n == 0) (λ _. Triple-fail _ (λ u p. tt))
                (λ some.
                  Triple-pure tt
                    (λ u q. elim q [ inl none' ↦ absurd (ground arith) | inr done ↦ done ]))))

-- Whatever calls of the driver fail: after a successful creation the drop point is the one new row,
-- no submission changed, and the API token has at most as many active drop points as it may have.
pub create_drop_point_within_quota-Stored :
    (dp : DropPoint) (max_active now : ℤ) (c : Conn)
    → (create_drop_point_within_quota dp max_active now c).0 ≡ ok tt
    → Stored dp max_active now c.tables
        (create_drop_point_within_quota dp max_active now c).1.tables
create_drop_point_within_quota-Stored dp max_active now c h =
    after_value (create_drop_point-triple dp max_active now c.tables) c tt refl h

-- For a driver that does not fail, a positive quota and a drop point with a name and fresh
-- identifiers, the creation succeeds exactly while the token has fewer active drop points than its
-- quota, and is refused with the tables unchanged from there on.
pub create_drop_point_within_quota-admits :
    (dp : DropPoint) (max_active now : ℤ) (t : Tables)
    → leb_ℤ max_active (pos 0) ≡ false
    → is_empty dp.display_name ≡ false
    → count_rows (has_id dp.id) t.drop_points ≡ 0
    → count_rows (has_drop_token_hash dp.drop_token_hash) t.drop_points ≡ 0
    → create_drop_point_within_quota dp max_active now (healthy t) ≡ (
        if ltb_ℤ (pos (count_rows (is_active dp.api_token_id now) t.drop_points)) max_active
        then (ok tt, healthy (record t { drop_points = drop_point_row dp ∷ t.drop_points }))
        else (err active_drop_point_quota_exceeded, healthy t))
unfolding create_drop_point_within_quota insert_within_quota insert_checked drop_point_row ◌>>=◌
    exec pure fail
create_drop_point_within_quota-admits dp max_active now t positive named fresh_id fresh_token =
    ground arith
