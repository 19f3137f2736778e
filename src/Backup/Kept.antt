-- ===== src/Backup/Kept.antt =====
-- A backup that was sent comes back.
use quic_diver.Base.{
  ℕ, ◌≡◌, ◌≢◌, refl, ap, ◌∙◌, true, Option, [], ◌∷◌, put_row, row_of-put_row_at,
  row_of-put_row_other, Str, Str-discrete,
}
use quic_diver.Auth.{Session}
use quic_diver.Store.{Database, Result, has_token, token_row_by_hash}
use quic_diver.Store.Tokens.{lookup_token, put_client_config, get_client_config}
use quic_diver.Backup.{
  asks, sends, Reply, backup, saved, owner_of, token_owner, backup_reply, saved_reply, serve_owner,
  serve_backup,
}

-- The database with the settings of the client in it.
abbrev pub with_config : Database → ℕ → Str → Str → Database
with_config d now h config = record d {
  client_configs = put_row Str-discrete d.client_configs h (config, now);
}

module _ (hash : Str → Str) (d : Database) (now : ℕ) (x : ℕ) (h : Str) (y : ℕ) (body : Str) where
  owner_kept :
      (s : Option Session) (header : Str)
      → owner_of hash (with_config d now (x ∷ h) (y ∷ body)) s header ≡ owner_of hash d s header
  unfolding owner_of token_owner lookup_token token_row_by_hash
  owner_kept s header = refl

  put_known :
      has_token d (x ∷ h) ≡ true
      → put_client_config d now (x ∷ h) (y ∷ body)
        ≡ Result.done (with_config d now (x ∷ h) (y ∷ body))
  unfolding put_client_config
  put_known known = rw known refl

  sent :
      (s : Option Session) (header : Str)
      → owner_of hash d s header ≡ x ∷ h
      → has_token d (x ∷ h) ≡ true
      → serve_backup hash d now s header (sends (y ∷ body))
        ≡ (saved, with_config d now (x ∷ h) (y ∷ body))
  unfolding serve_backup put_client_config
  sent s header own known =
      ap (λ o. serve_owner d now o (sends (y ∷ body))) own ∙ ap (saved_reply d) (put_known known)

  asked :
      (s : Option Session) (header : Str) (later : ℕ)
      → owner_of hash d s header ≡ x ∷ h
      → (serve_backup hash (with_config d now (x ∷ h) (y ∷ body)) later s header asks).0
        ≡ backup (y ∷ body) now
  unfolding serve_backup get_client_config
  asked s header later own =
      ap (λ o. (serve_owner (with_config d now (x ∷ h) (y ∷ body)) later o asks).0)
        (owner_kept s header ∙ own)
      ∙ ap backup_reply (row_of-put_row_at Str-discrete d.client_configs (x ∷ h) (y ∷ body, now))

  unchanged :
      (o : Str) (later : ℕ)
      → o ≢ x ∷ h
      → (serve_owner (with_config d now (x ∷ h) (y ∷ body)) later o asks).0
        ≡ (serve_owner d later o asks).0
  unfolding get_client_config
  unchanged [] later q = refl
  unchanged (c ∷ o) later q =
      ap backup_reply
        (row_of-put_row_other Str-discrete d.client_configs (x ∷ h) (c ∷ o) (y ∷ body, now) q)

  -- What a client of the table sends as its backup is saved; then it gets the same text back, with the
  -- time of the saving, on whatever connection and however late it asks; and what any other client
  -- gets is as before.
  pub serve_backup-back :
      (s : Option Session) (header : Str)
      → owner_of hash d s header ≡ x ∷ h
      → has_token d (x ∷ h) ≡ true
      → (let (r, d') = serve_backup hash d now s header (sends (y ∷ body)) in
          (r ≡ saved)
          × ((s' : Option Session) (header' : Str) (later : ℕ)
              → owner_of hash d s' header' ≡ x ∷ h
              → (serve_backup hash d' later s' header' asks).0 ≡ backup (y ∷ body) now)
          × ((s' : Option Session) (header' : Str) (later : ℕ)
              → owner_of hash d s' header' ≢ x ∷ h
              → (serve_backup hash d' later s' header' asks).0
                ≡ (serve_backup hash d later s' header' asks).0))
  unfolding serve_backup
  serve_backup-back s header own known =
      let e = sent s header own known in
      (
        ap (λ (p : Reply × Database). p.0) e,
        λ s' header' later own'.
            ap (λ (p : Reply × Database). (serve_backup hash p.1 later s' header' asks).0) e
            ∙ asked s' header' later own',
        λ s' header' later q.
            ap (λ (p : Reply × Database). (serve_backup hash p.1 later s' header' asks).0) e
            ∙ ap (λ o. (serve_owner (with_config d now (x ∷ h) (y ∷ body)) later o asks).0)
                (owner_kept s' header')
            ∙ unchanged (owner_of hash d s' header') later q,
      )
