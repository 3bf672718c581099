-- ===== src/Identity/Sessions/Invariant.antt =====
-- The invariant of the table of sessions, and that the session calls keep it.
use b46_ordering_app_backend.Base.{
  ◌≡◌, ◌≢◌, inl, inr, refl, sym, ◌∙◌, subst, ap, String, Bool, true, false, not, Option, none, some,
  List, [], ◌∷◌, ◌++◌, ok, bind_ok, passed, arith, eq_iff, ok-injective, or_fail, fail_if,
  Bool-cases, if◌then◌else◌, ◌=s=◌, All, find_first, keep, update_where,
}
use b46_ordering_app_backend.Base.Keys.{
  Absent, Absent-update, find_key-Absent, Distinct, find_key, Absent-find_key, Distinct-snoc,
  Distinct-update,
}
use b46_ordering_app_backend.Base.Rows.{
  All-snoc, All-update, update_where-snoc, keep-snoc, keep-update-Distinct, keep-ended,
}
use b46_ordering_app_backend.Identity.Domain.{
  Time, NewSession, technical, add_session, unauthenticated,
}
use b46_ordering_app_backend.Identity.Tables.{Db, Env, SessionRow, is_set, attempt}
use b46_ordering_app_backend.Identity.Sessions.{
  is_owner, session_row, session_taken, insert_session, rotated, revoked,
}

abbrev pub is_live : SessionRow → Bool
is_live s = not (is_set s.revoked_at)

-- Families have a name, ids and token hashes are unique, no family has two sessions that are not revoked, and a session
-- whose refresh token is consumed is revoked.
pub record IsKept (rows : List SessionRow) : Type 0 where
  pub ids : Distinct SessionRow.id rows
  pub access : Distinct SessionRow.access_token_hash rows
  pub refresh : Distinct SessionRow.refresh_token_hash rows
  pub single : Distinct SessionRow.family_id (keep is_live rows)
  pub spent : All (λ s. is_set s.refresh_consumed_at ≡ true → is_set s.revoked_at ≡ true) rows
  pub named : All (λ s. s.family_id ≢ "") rows

-- A change that leaves ids, tokens and families alone, and revives no session.
pub record Ends (f : SessionRow → SessionRow) : Type 0 where
  pub id : (s : SessionRow) → (f s).id ≡ s.id
  pub access : (s : SessionRow) → (f s).access_token_hash ≡ s.access_token_hash
  pub refresh : (s : SessionRow) → (f s).refresh_token_hash ≡ s.refresh_token_hash
  pub family : (s : SessionRow) → (f s).family_id ≡ s.family_id
  pub dead : (s : SessionRow) → is_live s ≡ false → is_live (f s) ≡ false
  pub spent :
      (s : SessionRow)
      → (is_set s.refresh_consumed_at ≡ true → is_set s.revoked_at ≡ true)
      → is_set (f s).refresh_consumed_at ≡ true
      → is_set (f s).revoked_at ≡ true

pub update-IsKept :
    (p : SessionRow → Bool) (f : SessionRow → SessionRow) (rows : List SessionRow)
    → Ends f
    → IsKept rows
    → IsKept (update_where p f rows)
update-IsKept p f rows ends k = record {
  ids = Distinct-update SessionRow.id p f ends.id rows k.ids;
  access = Distinct-update SessionRow.access_token_hash p f ends.access rows k.access;
  refresh = Distinct-update SessionRow.refresh_token_hash p f ends.refresh rows k.refresh;
  single =
      keep-update-Distinct SessionRow.family_id is_live p f ends.family ends.dead rows k.single;
  spent =
      All-update (λ s. is_set s.refresh_consumed_at ≡ true → is_set s.revoked_at ≡ true) p f
        (λ s e. ends.spent s) rows k.spent;
  named =
      All-update (λ s. s.family_id ≢ "") p f (λ s e h q. h (sym (ends.family s) ∙ q)) rows k.named;
}

-- The unique constraints hold for a row that was inserted.
abbrev pub IsFree : SessionRow → List SessionRow → Type 0
IsFree new rows =
    Absent SessionRow.id new.id rows
    × Absent SessionRow.access_token_hash new.access_token_hash rows
    × Absent SessionRow.refresh_token_hash new.refresh_token_hash rows

unset : {A : Type 0} (o : Option A) → is_set o ≡ false → o ≡ none
unset none e = refl
unset (some a) e = cc

pub free :
    (new : SessionRow) (rows : List SessionRow) → session_taken new rows ≡ false → IsFree new rows
free new rows e = (
  Absent-find_key SessionRow.id new.id rows (unset _ (ground (arith, e))),
  Absent-find_key SessionRow.access_token_hash new.access_token_hash rows
      (unset _ (ground (arith, e))),
  Absent-find_key SessionRow.refresh_token_hash new.refresh_token_hash rows
      (unset _ (ground (arith, e))),
)

-- What a successful insertion says.
pub insert_session_ok :
    (env : Env) (value : NewSession) (db : Db) {after : Db}
    → insert_session env value db ≡ ok after
    → IsFree (session_row env value) db.sessions
      × (after ≡ record db { sessions = db.sessions ++ session_row env value ∷ [] })
unfolding insert_session
insert_session_ok env value db h =
    let new = session_row env value in
    bind_ok (attempt env add_session) h λ u1 e1 h1.
      bind_ok (or_fail (find_first (is_owner value.user_id) db.users) unauthenticated) h1 λ u e2 h2.
        bind_ok (fail_if (session_taken new db.sessions) (technical add_session)) h2 λ u3 e3 h3.
          (free new db.sessions (passed _ (technical add_session) e3), sym (ok-injective h3))

-- A free row whose family has no live session is added.
pub insert-IsKept :
    (new : SessionRow) (rows : List SessionRow)
    → IsFree new rows
    → Absent SessionRow.family_id new.family_id (keep is_live rows)
    → new.family_id ≢ ""
    → new.revoked_at ≡ none
    → new.refresh_consumed_at ≡ none
    → IsKept rows
    → IsKept (rows ++ new ∷ [])
insert-IsKept new rows is_free alone name live fresh k = record {
  ids = Distinct-snoc SessionRow.id rows new k.ids is_free.0;
  access = Distinct-snoc SessionRow.access_token_hash rows new k.access is_free.1;
  refresh = Distinct-snoc SessionRow.refresh_token_hash rows new k.refresh is_free.2;
  single =
      subst (Distinct SessionRow.family_id)
        (sym (keep-snoc SessionRow.family_id is_live rows new (rw live)))
        (Distinct-snoc SessionRow.family_id (keep is_live rows) new k.single alone);
  spent =
      All-snoc (λ s. is_set s.refresh_consumed_at ≡ true → is_set s.revoked_at ≡ true) rows new
        k.spent (λ e. ground (arith, fresh, e));
  named = All-snoc (λ s. s.family_id ≢ "") rows new k.named name;
}

-- A live session is replaced by a free row of its own family.
pub replace-IsKept :
    (s new : SessionRow) (f : SessionRow → SessionRow) (rows : List SessionRow)
    → find_key SessionRow.id s.id rows ≡ some s
    → is_live s ≡ true
    → IsFree new rows
    → new.family_id ≡ s.family_id
    → s.family_id ≢ ""
    → new.revoked_at ≡ none
    → new.refresh_consumed_at ≡ none
    → Ends f
    → ((r : SessionRow) → is_live (f r) ≡ false)
    → IsKept rows
    → IsKept (update_where (λ r. r.id =s= s.id) f (rows ++ new ∷ []))
replace-IsKept s new f rows here live is_free same name fresh unused ends kills k =
    let p : SessionRow → Bool = λ r. r.id =s= s.id in
    let other : (new.id =s= s.id) ≡ false = elim (Bool-cases (new.id =s= s.id)) [
      | inr e ↦ e
      | inl e ↦
          let found = find_key-Absent SessionRow.id new.id rows is_free.0 in
          absurd (cc (found, here, (eq_iff new.id s.id).0 e))
    ] in
    let one_row : (if new.id =s= s.id then f new else new) ≡ new = rw other in
    let split : update_where p f (rows ++ new ∷ []) ≡ update_where p f rows ++ new ∷ [] =
      update_where-snoc p f rows new ∙ ap (λ r. update_where p f rows ++ r ∷ []) one_row in
    let alone =
      keep-ended SessionRow.family_id is_live SessionRow.id s.id f ends.family kills rows s k.ids
        k.single here live in
    subst IsKept (sym split) (
      insert-IsKept new (update_where p f rows)
        (
          Absent-update SessionRow.id new.id p f ends.id rows is_free.0,
          Absent-update SessionRow.access_token_hash new.access_token_hash p f ends.access rows
              is_free.1,
          Absent-update SessionRow.refresh_token_hash new.refresh_token_hash p f ends.refresh rows
              is_free.2,
        )
        (subst (λ k. Absent SessionRow.family_id k (keep is_live (update_where p f rows)))
          (sym same) alone)
        (λ e. name (sym same ∙ e)) fresh unused (update-IsKept p f rows ends k))

pub revoked-Ends : (reason : String) (now : Time) → Ends (revoked reason now)
revoked-Ends reason now = record {
  id = λ s. refl;
  access = λ s. refl;
  refresh = λ s. refl;
  family = λ s. refl;
  dead = λ s e. refl;
  spent = λ s h e. refl;
}

pub rotated-Ends : (now : Time) (id : String) → Ends (rotated now id)
rotated-Ends now id = record {
  id = λ s. refl;
  access = λ s. refl;
  refresh = λ s. refl;
  family = λ s. refl;
  dead = λ s e. refl;
  spent = λ s h e. refl;
}
