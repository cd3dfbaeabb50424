-- ===== src/Hooks/Saved.antt =====
-- A webhook configuration that was saved is the one that is read.
use warnly.Base.{
  ℕ, ◌+◌, ◌≡◌, refl, sym, ap, subst, ◌∙◌, true, false, Option, none, some, List, [], ◌∷◌, ◌++◌, map,
  if◌then◌else◌, ◌==◌, ==_refl, Bytes, text, is_empty, find?, filter, length, Result, ok, err,
  and_then, ◌>>=◌, Bool-cases, Option-cases, inl, inr, arith,
}
use warnly.Alert.{NotificationChannel, WebhookConfig, webhook}
use warnly.Db.Tables.{Db, exec, read_clock}
use warnly.Db.Statements.{
  joined_teams, list_teams, list_channels, create_channel, get_webhook, create_webhook,
  update_webhook,
}
use warnly.Notifier.Secret.{Laws, encrypt_secret, decrypt_secret, decrypt_secret-encrypt_secret}
use warnly.Notifier.Send.{Outbox, SendError}
use warnly.Service.Alerts.{has_access}
use warnly.Hooks.Config.{
  Site, H, in_store, if_found, sending, with_outbox, SaveWebhookConfigRequest, is_webhook,
  webhook_channel, NotificationService, channel_or_new, sealed_secret, put_config, store_config,
  save_webhook_config, config_of_channel, get_webhook_config, opened_secret, with_secret,
  secret_result, allowed, get_webhook_config_with_secret,
}

-- One statement more.
abbrev pub one_more : Site → Site
one_more w = record w { db = record w.db { statements = w.db.statements + 1 } }

-- The first webhook channel of the team has a first configuration, with this URL and this secret.
abbrev pub IsStored : ℕ → Bytes → Bytes → Db → Type 0
unfolding webhook_channel
IsStored team_id url sealed db =
    (c : NotificationChannel) × (webhook_channel (filter (λ c. c.team_id == team_id) db.channels)
      ≡ some c)
    × (config : WebhookConfig) × (find? (λ x. x.channel_id == c.id) db.webhooks ≡ some config)
    × (config.url ≡ url)
    × (config.secret_encrypted ≡ sealed)

after_ok :
    {A B : Type 0} (Q : Site → Type 0) (m : H A) (k : A → H B) (w : Site) {a : A} {w' : Site}
    → m w ≡ (ok a, w')
    → Q (k a w').1
    → Q ((m >>= k) w).1
after_ok Q m k w e q = subst (λ r. Q (and_then r k).1) (sym e) q

-- What is stored where nothing is there.
abbrev new_channel : ℕ → ℕ → ℕ → NotificationChannel
new_channel now team_id id = record {
  created_at = now;
  updated_at = now;
  name = text "Default Webhook";
  channel_type = webhook;
  team_id = team_id;
  id = id;
  enabled = true;
}

abbrev new_config : ℕ → ℕ → Bytes → Bytes → ℕ → WebhookConfig
new_config now channel_id url sealed id = record {
  created_at = now;
  updated_at = now;
  verified_at = none;
  url = url;
  secret_encrypted = sealed;
  id = id;
  channel_id = channel_id;
}

-- What an update makes of a row.
abbrev changed : WebhookConfig → WebhookConfig → WebhookConfig
changed new row =
    if row.channel_id == new.channel_id
    then record row {
      updated_at = new.updated_at;
      url = new.url;
      secret_encrypted = new.secret_encrypted;
      verified_at = new.verified_at;
    }
    else row

changed-channel : (new row : WebhookConfig) → (changed new row).channel_id ≡ row.channel_id
changed-channel new row = elim (Bool-cases (row.channel_id == new.channel_id)) [
  | inl e ↦ rw e refl
  | inr e ↦ rw e refl
]

some_inj : {x y : WebhookConfig} → ◌≡◌ {A = Option WebhookConfig} (some x) (some y) → x ≡ y
some_inj h = cc

same_id : (a b : ℕ) → (a == b) ≡ true → a ≡ b
same_id a b h = ground (arith, h)

find?-map-changed :
    (new : WebhookConfig) (n : ℕ) (rows : List WebhookConfig) (row : WebhookConfig)
    → find? (λ x. x.channel_id == n) rows ≡ some row
    → (find? (λ x. x.channel_id == n) (map (changed new) rows) ≡ some (changed new row))
      × (row.channel_id ≡ n)
find?-map-changed new n [] row h = cc
find?-map-changed new n (x ∷ rows) row h = elim (Bool-cases (x.channel_id == n)) [
  | inl same ↦
      let e : x ≡ row = some_inj (rw same at h) in
      rw (changed-channel new x, same)
        (
          ap (λ r. some (changed new r)) e,
          ap (λ (r : WebhookConfig). r.channel_id) (sym e) ∙ same_id x.channel_id n same,
        )
  | inr other ↦ rw (changed-channel new x, other) (find?-map-changed new n rows row (rw other at h))
]

module _ (svc : NotificationService) (runs : (n : ℕ) → svc.env.fails n ≡ false) where
  list_channels-runs :
      (team_id : ℕ) (w : Site)
      → in_store (list_channels svc.env team_id) w
        ≡ (ok (filter (λ c. c.team_id == team_id) w.db.channels), one_more w)
  unfolding in_store list_channels exec
  list_channels-runs team_id w = rw (runs w.db.statements, in_store, list_channels, exec) refl

  get_webhook-runs :
      (channel_id : ℕ) (w : Site)
      → in_store (if_found (get_webhook svc.env channel_id)) w
        ≡ (ok (find? (λ x. x.channel_id == channel_id) w.db.webhooks), one_more w)
  unfolding in_store if_found get_webhook exec
  get_webhook-runs channel_id w =
      elim (Option-cases
        (find? (λ (x : WebhookConfig). x.channel_id == channel_id) w.db.webhooks)) [
          | inl missing ↦
              rw (runs w.db.statements, missing, in_store, if_found, get_webhook, exec) refl
          | inr (config, found) ↦
              rw (runs w.db.statements, found, in_store, if_found, get_webhook, exec) refl
        ]

  channel_or_new-runs :
      (now team_id : ℕ) (w : Site) (o : Option NotificationChannel)
      → webhook_channel (filter (λ c. c.team_id == team_id) w.db.channels) ≡ o
      → (c : NotificationChannel) × (w' : Site) × (channel_or_new svc now team_id o w ≡ (ok c, w'))
        × (webhook_channel (filter (λ c. c.team_id == team_id) w'.db.channels) ≡ some c)
  unfolding channel_or_new in_store create_channel exec webhook_channel is_webhook
  channel_or_new-runs now team_id w (some c) h = (c, w, refl, h)
  channel_or_new-runs now team_id w none h = (
    new_channel now team_id w.db.next_id,
    record w {
      db = record w.db {
        channels = new_channel now team_id w.db.next_id ∷ w.db.channels;
        next_id = w.db.next_id + 1;
        statements = w.db.statements + 1;
      };
    },
    rw (runs w.db.statements, in_store, create_channel, exec) refl,
    rw (webhook_channel, ==_refl team_id) refl,
  )

  put_config-runs :
      (now channel_id : ℕ) (url sealed : Bytes) (w : Site) (o : Option WebhookConfig)
      → find? (λ x. x.channel_id == channel_id) w.db.webhooks ≡ o
      → (config : WebhookConfig) × (w' : Site) × (put_config svc now channel_id url sealed o w
          ≡ (ok config, w'))
        × (w'.db.channels ≡ w.db.channels)
        × (row : WebhookConfig) × (find? (λ x. x.channel_id == channel_id) w'.db.webhooks
            ≡ some row)
        × (row.url ≡ url)
        × (row.secret_encrypted ≡ sealed)
  unfolding put_config in_store create_webhook update_webhook exec
  put_config-runs now channel_id url sealed w none h = (
    new_config now channel_id url sealed w.db.next_id,
    record w {
      db = record w.db {
        webhooks = new_config now channel_id url sealed w.db.next_id ∷ w.db.webhooks;
        next_id = w.db.next_id + 1;
        statements = w.db.statements + 1;
      };
    },
    rw (runs w.db.statements, in_store, create_webhook, exec) refl,
    refl,
    new_config now channel_id url sealed w.db.next_id,
    rw (==_refl channel_id) refl,
    refl,
    refl,
  )
  put_config-runs now channel_id url sealed w (some config) h =
      let new : WebhookConfig = record config {
        updated_at = now;
        url = url;
        secret_encrypted = sealed;
        verified_at = some now;
      } in
      let (found, owner) = find?-map-changed new channel_id w.db.webhooks config h in
      (
        new,
        record w {
          db = record w.db {
            webhooks = map (changed new) w.db.webhooks;
            statements = w.db.statements + 1;
          };
        },
        rw (runs w.db.statements, in_store, update_webhook, exec) refl,
        refl,
        changed new config,
        found,
        rw (==_refl config.channel_id) refl,
        rw (==_refl config.channel_id) refl,
      )

-- The configuration is stored with a secret that is read as this one.
abbrev pub IsSaved : NotificationService → ℕ → Bytes → Bytes → Db → Type 0
unfolding IsStored
IsSaved svc team_id url secret db =
    (sealed : Bytes) × IsStored team_id url sealed db
    × ((w : Site) → opened_secret svc sealed w ≡ (ok secret, w))

opened_secret-decrypt_secret :
    (svc : NotificationService) (sealed : Bytes) (w : Site)
    → opened_secret svc sealed w ≡ (secret_result (decrypt_secret svc.net.crypto svc.key sealed), w)
unfolding opened_secret decrypt_secret
opened_secret-decrypt_secret svc [] w = refl
opened_secret-decrypt_secret svc (c ∷ cs) w = refl

sending-db :
    {A : Type 0} (r : Result SendError A × Outbox) (w : Site) → (with_outbox r w).1.db ≡ w.db
sending-db (ok a, out) w = refl
sending-db (err e, out) w = refl

-- What is assumed of the service: no statement fails, the random source gives nonces, and the key
-- makes a cipher.
record Works (svc : NotificationService) : Type 0 where
  pub runs : (n : ℕ) → svc.env.fails n ≡ false
  pub nonces :
      (n : ℕ)
      → (nonce : Bytes) × (svc.nonce n ≡ some nonce) × (length nonce ≡ svc.net.crypto.nonce_size)
  pub cipher : svc.net.crypto.new_cipher svc.key ≡ true
  pub gcm : svc.net.crypto.new_gcm svc.key ≡ true
  pub laws : Laws svc.net.crypto

module _ (svc : NotificationService) (works : Works svc) where
  sealed_secret-runs :
      (secret : Bytes) (w : Site)
      → (sealed : Bytes) × (sealed_secret svc secret w ≡ (ok sealed, w))
        × ((v : Site) → opened_secret svc sealed v ≡ (ok secret, v))
  unfolding sealed_secret encrypt_secret opened_secret
  sealed_secret-runs [] w = ([], refl, λ v. refl)
  sealed_secret-runs (x ∷ xs) w =
      let (nonce, given, size) = works.nonces w.db.statements in
      let sealed : Bytes =
        svc.net.crypto.base64 (nonce ++ svc.net.crypto.gcm_seal svc.key nonce (x ∷ xs)) in
      let e : encrypt_secret svc.net.crypto svc.key (some nonce) (x ∷ xs) ≡ ok sealed =
        rw (works.cipher, works.gcm, encrypt_secret) refl in
      (
        sealed,
        rw (given, e, sealed_secret) refl,
        λ v.
            opened_secret-decrypt_secret svc sealed v
            ∙ ap (λ r. (secret_result r, v))
                (decrypt_secret-encrypt_secret svc.net.crypto works.laws svc.key nonce (x ∷ xs)
                  sealed size e),
      )

  store_config-IsSaved :
      (req : SaveWebhookConfigRequest) (now : ℕ) (w : Site)
      → IsSaved svc req.team_id req.url req.secret (store_config svc req now w).1.db
  unfolding store_config sending in_store read_clock IsSaved IsStored
  store_config-IsSaved req now w =
      let Q : Site → Type 0 = λ v. IsSaved svc req.team_id req.url req.secret v.db in
      let (c, w1, e1, ch) =
        channel_or_new-runs svc works.runs now req.team_id (one_more w) _ refl in
      let (sealed, e2, opens) = sealed_secret-runs req.secret w1 in
      let (config, w2, e3, same, row, found, url, secret) =
        put_config-runs svc works.runs now c.id req.url sealed (one_more w1) _ refl in
      after_ok Q (in_store (list_channels svc.env req.team_id)) _ w
        (list_channels-runs svc works.runs req.team_id w)
        (after_ok Q (channel_or_new svc now req.team_id _) _ (one_more w) e1 (
          after_ok Q (sealed_secret svc req.secret) _ w1 e2 (
            after_ok Q (in_store (if_found (get_webhook svc.env c.id))) _ w1
              (get_webhook-runs svc works.runs c.id w1)
              (after_ok Q (put_config svc now c.id req.url sealed _) _ (one_more w1) e3 (
                subst (IsSaved svc req.team_id req.url req.secret) (sym (sending-db _ _)) (
                  sealed,
                  (
                    c,
                    ap (λ cs. webhook_channel (filter (λ c. c.team_id == req.team_id) cs)) same
                        ∙ ch,
                    row,
                    found,
                    url,
                    secret,
                  ),
                  opens,
                ))))))

  list_teams-runs :
      (user_id : ℕ) (w : Site)
      → in_store (list_teams svc.env user_id) w ≡ (ok (joined_teams user_id w.db), one_more w)
  unfolding in_store list_teams exec joined_teams
  list_teams-runs user_id w = rw (works.runs w.db.statements, in_store, list_teams, exec) refl

  save-IsSaved :
      (req : SaveWebhookConfigRequest) (w : Site)
      → has_access (joined_teams req.user_id w.db) req.team_id ≡ true
      → is_empty req.url ≡ false
      → IsSaved svc req.team_id req.url req.secret (save_webhook_config svc req w).1.db
  unfolding save_webhook_config in_store read_clock
  save-IsSaved req w may given =
      let Q : Site → Type 0 = λ v. IsSaved svc req.team_id req.url req.secret v.db in
      after_ok Q (in_store (list_teams svc.env req.user_id)) _ w (list_teams-runs req.user_id w) (
        after_ok Q (allowed svc (has_access (joined_teams req.user_id w.db) req.team_id)) _
          (one_more w) (ap (λ b. allowed svc b (one_more w)) may)
          (rw given (store_config-IsSaved req (svc.env.clock w.db.readings) _)))

  get_webhook_config-runs :
      (team_id : ℕ) (w : Site) (c : NotificationChannel) (config : WebhookConfig)
      → webhook_channel (filter (λ c. c.team_id == team_id) w.db.channels) ≡ some c
      → find? (λ x. x.channel_id == c.id) w.db.webhooks ≡ some config
      → in_store (if_found (get_webhook_config svc team_id)) w
        ≡ (ok (some config), one_more (one_more w))
  unfolding get_webhook_config config_of_channel in_store if_found list_channels get_webhook exec
  get_webhook_config-runs team_id w c config channel found =
      rw
        (
          in_store,
          if_found,
          get_webhook_config,
          list_channels,
          exec,
          works.runs w.db.statements,
          channel,
          config_of_channel,
          get_webhook,
          works.runs (w.db.statements + 1),
          found,
        )
        refl

  with_secret-opens :
      (config : WebhookConfig) (secret : Bytes) (w : Site)
      → opened_secret svc config.secret_encrypted w ≡ (ok secret, w)
      → (with_secret svc (some config) w).0 ≡ ok (record { url = config.url; secret = secret })
  unfolding with_secret
  with_secret-opens config secret w opens = rw (with_secret, opens) refl

  get-IsSaved :
      (team_id : ℕ) (url secret : Bytes) (w : Site)
      → IsSaved svc team_id url secret w.db
      → (get_webhook_config_with_secret svc team_id w).0
        ≡ ok (record { url = url; secret = secret })
  unfolding get_webhook_config_with_secret IsSaved IsStored
  get-IsSaved team_id url secret w (sealed, (c, channel, config, found, at, hidden), opens) =
      ap (λ r. (and_then r (with_secret svc)).0)
        (get_webhook_config-runs team_id w c config channel found)
      ∙ with_secret-opens config secret (one_more (one_more w)) (
          ap (λ s. opened_secret svc s (one_more (one_more w))) hidden
          ∙ opens (one_more (one_more w)))
      ∙ ap (λ u. ok (record { url = u; secret = secret })) at

-- What `SaveWebhookConfig` was given is what `GetWebhookConfigWithSecretByTeamID` returns for the
-- team afterwards, whether or not the test request went well: where the user may see the team, the
-- URL is not empty, no statement fails, the random source gives nonces, and the key makes a cipher
-- that obeys its laws.
pub get-save_webhook_config :
    (svc : NotificationService) (req : SaveWebhookConfigRequest) (w : Site)
    → has_access (joined_teams req.user_id w.db) req.team_id ≡ true
    → is_empty req.url ≡ false
    → ((n : ℕ) → svc.env.fails n ≡ false)
    → ((n : ℕ)
        → (nonce : Bytes) × (svc.nonce n ≡ some nonce) × (length nonce ≡ svc.net.crypto.nonce_size))
    → svc.net.crypto.new_cipher svc.key ≡ true
    → svc.net.crypto.new_gcm svc.key ≡ true
    → Laws svc.net.crypto
    → (get_webhook_config_with_secret svc req.team_id (save_webhook_config svc req w).1).0
      ≡ ok (record { url = req.url; secret = req.secret })
get-save_webhook_config svc req w may given runs nonces cipher gcm laws =
    let works : Works svc = record {
      runs = runs;
      nonces = nonces;
      cipher = cipher;
      gcm = gcm;
      laws = laws;
    } in
    get-IsSaved svc works req.team_id req.url req.secret (save_webhook_config svc req w).1
      (save-IsSaved svc works req w may given)
