-- ===== src/Hooks/Tests.antt =====
-- The webhook of a team with no channel yet, saved and read.
use warnly.Base.{◌+◌, ◌≡◌, refl, true, false, some, [], ◌∷◌, text, ok, arith}
use warnly.Db.Statements.{joined_teams}
use warnly.Notifier.Secret.{Crypto, Laws}
use warnly.Service.Alerts.{has_access}
use warnly.Hooks.Config.{
  Site, NotificationService, SaveWebhookConfigRequest, save_webhook_config,
  get_webhook_config_with_secret,
}
use warnly.Hooks.Saved.{get-save_webhook_config}

abbrev crypto : Crypto
crypto = record {
  sha256 = λ b. b;
  new_cipher = λ key. true;
  new_gcm = λ key. true;
  nonce_size = 2;
  gcm_seal = λ key nonce plain. plain;
  gcm_open = λ key nonce sealed. some sealed;
  base64 = λ b. b;
  unbase64 = λ b. some b;
}

abbrev service : NotificationService
service = record {
  env = record {
    fails = λ n. false;
    db_now = λ n. 1000 + n;
    clock = λ n. 1000;
    counts = λ a b. true;
  };
  net = record {
    crypto = crypto;
    marshal = λ p. some p.status;
    valid_url = λ u. true;
    hmac_hex = λ body secret. secret;
    respond = λ n r. some (record { status_code = 500; body = some [] });
  };
  key = text "key";
  nonce = λ n. some (7 ∷ 9 ∷ []);
}

crypto-Laws : Laws crypto
crypto-Laws = record {
  open-seal = λ key nonce plain. refl;
  unbase64-base64 = λ b. refl;
  base64_nonempty = λ b h. h;
  nonce_pos = omega arith;
}

abbrev site : Site
site = record {
  db = record {
    alerts = [];
    channels = [];
    webhooks = [];
    notifications = [];
    locks = [];
    issues = [];
    projects = [];
    teams = record { id = 3; name = text "own"; owner_id = 7; created_at = 1 } ∷ [];
    memberships = record { user_id = 7; team_id = 3 } ∷ [];
    users = [];
    messages = [];
    mentions = [];
    assignments = [];
    next_id = 10;
    statements = 0;
    readings = 0;
  };
  outbox = record { requests = [] };
}

abbrev request : SaveWebhookConfigRequest
request = record { user_id = 7; url = text "https://hook"; secret = text "s3"; team_id = 3 }

listed : has_access (joined_teams 7 site.db) 3 ≡ true
unfolding has_access joined_teams
listed = refl

get-save_webhook_config_example :
    (get_webhook_config_with_secret service 3 (save_webhook_config service request site).1).0
    ≡ ok (record { url = text "https://hook"; secret = text "s3" })
get-save_webhook_config_example =
    get-save_webhook_config service request site listed refl (λ n. refl)
      (λ n. (7 ∷ 9 ∷ [], refl, refl)) refl refl crypto-Laws
