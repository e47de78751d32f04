-- ===== src/Identity/Replacement.antt =====
-- What `rotateRefreshToken` of identity.repository.ts leaves when it gives a new token.
use brokerplatform.Prelude.{
  ℕ, ◌≡◌, refl, Bool, true, some, List, ◌&&◌, String, arith, any, str_eq, first, filter_by, ◌==◌,
  All-found, any-eq-false, str_eq_iff, any-hit, not, suc, ltb, false, is_some, subst, Option, sym,
  none,
}
use brokerplatform.Db.Schema.{PasswordActorType, RefreshToken, Db}
use brokerplatform.Identity.Crypto.{Node, hash_opaque_token}
use brokerplatform.Identity.Sessions.{
  same_actor_type, replace_session, Rotation, RefreshTokenMeta, RotatedRefreshToken, is_live,
  rotation_result, is_session_of, rotate_refresh_token, detect_reuse, rotate_refresh_token_work,
  rotate_unexpired, rotate_row, rotate_found,
}
use brokerplatform.Db.Transaction.{Result, World, ok, err, ◌>>=◌, Ambient, begin}
use brokerplatform.Identity.Revocation.{IsSpent}
use brokerplatform.Db.Inversion.{
  random_bytes_elim, date_now_elim, random_uuid_elim, now_elim, insert_elim, update_elim, bind_elim,
  returned_inv,
}
use brokerplatform.Db.Policies.Sessions.{refresh_tokens}
use brokerplatform.Identity.Rotation.{found_by}
use brokerplatform.Db.Context.{as_system}

-- A live session of the actor with this hash and expiry is stored.
abbrev pub has_session : String → PasswordActorType → ℕ → ℕ → List RefreshToken → Bool
has_session hash type actor expires_at rs =
    any
      (λ r.
        str_eq r.token_hash hash
        && is_live r
        && is_session_of type actor r
        && r.expires_at == expires_at)
      rs

same_actor_type_refl : (a : PasswordActorType) → same_actor_type a a ≡ true
same_actor_type_refl PasswordActorType.broker = refl
same_actor_type_refl PasswordActorType.client_user = refl
same_actor_type_refl PasswordActorType.platform_admin = refl

module _ (node : Node) where
  rotation_result_inv :
      (o : Result Rotation × Db) {new : RotatedRefreshToken} {db' : Db}
      → rotation_result node o ≡ (ok (some new), db')
      → o ≡ (ok (Rotation.rotated new), db')
  rotation_result_inv (ok Rotation.reused, db) h = cc
  rotation_result_inv (ok Rotation.not_rotated, db) h = cc
  rotation_result_inv (ok (Rotation.rotated r), db) h = ground arith
  rotation_result_inv (err e, db) h = cc

  -- What a rotation of a stored token has done.
  unfoldable pub IsReplaced : RefreshToken → RotatedRefreshToken → Db → Type 0
  unfolding hash_opaque_token
  IsReplaced row new db' =
      (new.actor_type ≡ row.actor_type)
      × (new.actor_id ≡ row.actor_id)
      × IsSpent row.token_hash db'
      × (has_session (hash_opaque_token node new.raw_token) row.actor_type row.actor_id
            new.expires_at db'.refresh_tokens
          ≡ true)

  replace_session_lem :
      (row : RefreshToken) (p : RefreshToken → Bool) (meta : RefreshTokenMeta) (w : World)
      {new : RotatedRefreshToken} {w' : World}
      → first (filter_by p w.db.refresh_tokens) ≡ some row
      → replace_session node row meta w ≡ ok (Rotation.rotated new, w')
      → IsReplaced row new w'.db
  unfolding replace_session IsReplaced
  replace_session_lem row p meta w {new} {w'} found h = random_bytes_elim _ w h λ h1.
      date_now_elim _ _ h1 λ h2. random_uuid_elim _ _ h2 λ h3. now_elim _ _ h3 λ h4.
        insert_elim refresh_tokens _ _ h4 λ may fresh h5.
          update_elim refresh_tokens _ _ _ _ h5 λ free h6.
            let apart =
              (All-found _ p w.db.refresh_tokens (any-eq-false _ w.db.refresh_tokens fresh)
                found).0 in
            let hash = (str_eq_iff row.token_hash row.token_hash).1 refl in
            let own =
              (str_eq_iff
                  (hash_opaque_token node (node.to_base64url (w.ambient.random_bytes 32 w.drawn)))
                  (hash_opaque_token node
                    (node.to_base64url (w.ambient.random_bytes 32 w.drawn)))).1
                refl in
            let type = same_actor_type_refl row.actor_type in
            let gone =
              any-hit p (λ a. a.id == row.id)
                (λ a. str_eq a.token_hash row.token_hash && not (is_live a))
                (λ a. record a {
                  revoked_at = some w.ambient.now;
                  replaced_by = some (w.ambient.uuid (suc w.drawn));
                })
                w.db.refresh_tokens found (ground arith) (ground arith) in
            (ground arith, ground arith, ground arith, ground arith)

  detect_reuse_ends :
      (row : RefreshToken) (w : World) {new : RotatedRefreshToken} {w' : World}
      → ¬ (detect_reuse node row w ≡ ok (Rotation.rotated new, w'))
  unfolding detect_reuse
  detect_reuse_ends row w h = bind_elim _ _ w h λ u w1 p h1. bind_elim _ _ w1 h1 λ v w2 q h2. cc

  rotate_row_lem :
      (raw : String) (meta : RefreshTokenMeta) (w : World) {new : RotatedRefreshToken} {w' : World}
      → rotate_refresh_token_work node raw meta w ≡ ok (Rotation.rotated new, w')
      → (row : RefreshToken) × (found_by node raw w.db ≡ some row)
        × (is_live row ≡ true)
        × (ltb row.expires_at w.ambient.date_now ≡ false)
        × IsReplaced row new w'.db
  unfolding rotate_refresh_token_work replace_session detect_reuse ◌>>=◌
  rotate_row_lem raw meta w {new} {w'} h = found (found_by node raw w.db) refl h
    where
      late :
          (row : RefreshToken) (expired : Bool)
          → found_by node raw w.db ≡ some row
          → is_live row ≡ true
          → ltb row.expires_at w.ambient.date_now ≡ expired
          → rotate_unexpired node expired row meta w ≡ ok (Rotation.rotated new, w')
          → (a : RefreshToken) × (found_by node raw w.db ≡ some a)
            × (is_live a ≡ true)
            × (ltb a.expires_at w.ambient.date_now ≡ false)
            × IsReplaced a new w'.db
      late row true e live l h = cc
      late row false e live l h = (row, e, live, l, replace_session_lem row _ meta w e h)

      gone :
          (row : RefreshToken) (revoked : Bool)
          → found_by node raw w.db ≡ some row
          → is_some row.revoked_at ≡ revoked
          → rotate_row node revoked row meta w ≡ ok (Rotation.rotated new, w')
          → (a : RefreshToken) × (found_by node raw w.db ≡ some a)
            × (is_live a ≡ true)
            × (ltb a.expires_at w.ambient.date_now ≡ false)
            × IsReplaced a new w'.db
      gone row true e r h = absurd (detect_reuse_ends row w h)
      gone row false e r h =
          late row (ltb row.expires_at w.ambient.date_now) e (ground arith) refl h

      found :
          (o : Option RefreshToken)
          → found_by node raw w.db ≡ o
          → rotate_found node o meta w ≡ ok (Rotation.rotated new, w')
          → (a : RefreshToken) × (found_by node raw w.db ≡ some a)
            × (is_live a ≡ true)
            × (ltb a.expires_at w.ambient.date_now ≡ false)
            × IsReplaced a new w'.db
      found none e h = cc
      found (some row) e h = gone row (is_some row.revoked_at) e refl h

  -- When `rotateRefreshToken` gives a new token, the one that was presented was stored, live and not
  -- expired. After the call it is revoked, and a live session of the same actor with the new token's
  -- hash and expiry is stored.
  pub rotate_refresh_token-replaces :
      (raw : String) (meta : RefreshTokenMeta) (t : Ambient) (db : Db) {new : RotatedRefreshToken}
      {db' : Db}
      → rotate_refresh_token node raw meta t db ≡ (ok (some new), db')
      → (row : RefreshToken) × (found_by node raw db ≡ some row)
        × (is_live row ≡ true)
        × (ltb row.expires_at t.date_now ≡ false)
        × IsReplaced row new db'
  unfolding rotate_refresh_token
  rotate_refresh_token-replaces raw meta t db {new} {db'} h =
      let (w, runs, same) =
        returned_inv as_system (rotate_refresh_token_work node raw meta) t db
          (rotation_result_inv _ h) in
      subst
        (λ x.
          (row : RefreshToken) × (found_by node raw db ≡ some row)
          × (is_live row ≡ true)
          × (ltb row.expires_at t.date_now ≡ false)
          × IsReplaced row new x)
        (sym same) (rotate_row_lem raw meta (begin as_system t db) runs)
