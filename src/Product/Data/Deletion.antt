-- ===== src/Product/Data/Deletion.antt =====
-- What `ProductDataManager.delete` deletes.
use sigil_pi.Prelude.{
  ◌≡◌, refl, arith, String, Bool, true, false, none, ◌⊎◌, inl, inr, str_eq, if◌then◌else◌, if_both,
}
use sigil_pi.Prelude.Dict.{get, get-without}
use sigil_pi.Prelude.Table.{find_where, find_where-delete_where}
use sigil_pi.Product.Errors.{Reply, ok, err}
use sigil_pi.Product.Quota.{Db, usage_is}
use sigil_pi.Product.Quota.Turns.{remove_session_usage}
use sigil_pi.Product.Schedules.{of_session, remove_session, internal_session_of}
use sigil_pi.Product.Schedules.Removal.{kept, remove_session_lem, IsUnique}
use sigil_pi.Product.Data.{
  Stored, Deleted, stem, short_stem, session_not_found, found_any, delete_internal_files,
  delete_locked, exists_in,
}
use sigil_pi.Product.Data.Attribution.{IsErased, delete_internal_files-IsErased}

module _ (digest : String → String) (tenant_id session internal : String) where
  -- The session's files are gone, those of others are there, and just its schedules are gone.
  pub record Erases (s s' : Stored) : Type 0 where
    pub erased : IsErased digest internal s'.files
    pub conversations :
        (n : String)
        → str_eq (stem digest internal) n ≡ false
        → get n s'.files.conversations ≡ get n s.files.conversations
    pub sandboxes :
        (n : String)
        → str_eq (short_stem digest internal) n ≡ false
        → get n s'.files.sandboxes ≡ get n s.files.sandboxes
    pub audits :
        (n : String)
        → str_eq (stem digest internal) n ≡ false
        → get n s'.files.audits ≡ get n s.files.audits
    pub schedules :
        (k : String)
        → get k s'.schedules ≡ kept (of_session (digest tenant_id) session) (get k s.schedules)

  -- The answer: something was there, and its row of the quotas, if there are any, is gone; or 404,
  -- and there was neither a conversation nor an audit log.
  abbrev pub Answers : Bool → Stored → Reply Deleted × Stored → Type 0
  Answers has_quota s (reply, s') =
      ((d : Deleted) × (reply ≡ ok d)
        × (found_any d ≡ true)
        × (has_quota ≡ true
            → find_where (usage_is (digest tenant_id) (digest internal)) s'.db.session_usage
              ≡ none))
      ⊎ ((reply ≡ err session_not_found)
          × (s'.db ≡ s.db)
          × (get (stem digest internal) s.files.conversations ≡ none)
          × (get (stem digest internal) s.files.audits ≡ none))

  -- Whatever becomes of the database.
  Erases-delete :
      (s : Stored) (db : Db)
      → IsUnique s.schedules
      → Erases s (record {
        files = delete_internal_files digest internal s.files;
        schedules = (remove_session digest tenant_id session s.schedules).1;
        db = db;
      })
  unfolding delete_internal_files
  Erases-delete s db unique = record {
    erased = delete_internal_files-IsErased digest internal s.files;
    conversations =
        λ n other. ground (arith, get-without (stem digest internal) n s.files.conversations);
    sandboxes =
        λ n other. ground (arith, get-without (short_stem digest internal) n s.files.sandboxes);
    audits = λ n other. ground (arith, get-without (stem digest internal) n s.files.audits);
    schedules = λ k. remove_session_lem digest tenant_id session k s.schedules unique;
  }

  usage_gone :
      (has_quota : Bool) (db : Db)
      → has_quota ≡ true
      → find_where
          (usage_is (digest tenant_id) (digest internal))
          (if has_quota
            then remove_session_usage digest tenant_id internal db
            else db).session_usage
        ≡ none
  unfolding remove_session_usage
  usage_gone true db e =
      find_where-delete_where (usage_is (digest tenant_id) (digest internal)) db.session_usage
  usage_gone false db e = cc

  not_found :
      (d : Deleted) (s : Stored)
      → d.conversation ≡ exists_in (stem digest internal) s.files.conversations
      → d.audit ≡ exists_in (stem digest internal) s.files.audits
      → (found_any d ≡ false → get (stem digest internal) s.files.conversations ≡ none)
        × (found_any d ≡ false → get (stem digest internal) s.files.audits ≡ none)
  not_found d s e e' = (λ none_found. ground arith, λ none_found. ground arith)

module _ (digest : String → String) (tenant_id session : String) where
  -- Where no key of a schedule stands twice: a deletion erases the conversation, the sandbox, the audit
  -- log and the schedules of this tenant's session and keeps the files under other stems and all other
  -- schedules, also where it answers 404. It answers 404 only where there was neither a conversation
  -- nor an audit log, and otherwise the session's row of the quotas, if there are any, is gone too.
  pub delete_locked_lem :
      (has_quota : Bool) (s : Stored)
      → IsUnique s.schedules
      → let internal = internal_session_of digest tenant_id session in
        let answer = delete_locked digest has_quota tenant_id session s in
        Erases digest tenant_id session internal s answer.1
        × Answers digest tenant_id session internal has_quota s answer
  unfolding delete_locked
  delete_locked_lem has_quota s unique =
      let internal = internal_session_of digest tenant_id session in
      let (count, schedules) = remove_session digest tenant_id session s.schedules in
      let deleted : Deleted = record {
        conversation = exists_in (stem digest internal) s.files.conversations;
        sandbox = exists_in (short_stem digest internal) s.files.sandboxes;
        audit = exists_in (stem digest internal) s.files.audits;
        schedules = count;
      } in
      let absent = not_found digest tenant_id session internal deleted s refl refl in
      if_both
        (λ (x : Reply Deleted × Stored).
          Erases digest tenant_id session internal s x.1
          × Answers digest tenant_id session internal has_quota s x)
        (found_any deleted)
        (λ found. (
          Erases-delete digest tenant_id session internal s _ unique,
          inl (deleted, refl, found, usage_gone digest tenant_id session internal has_quota s.db),
        ))
        (λ none_found. (
          Erases-delete digest tenant_id session internal s s.db unique,
          inr (refl, refl, absent.0 none_found, absent.1 none_found),
        ))
