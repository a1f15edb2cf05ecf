-- ===== src/Inventory/Tests/Secrets.antt =====
-- A URL with a user and a password.
use tarea_integracion_sistem.Prelude.{◌≡◌, refl, ◌∷◌, ◌++◌, arith}
use tarea_integracion_sistem.Text.{text, is_space}
use tarea_integracion_sistem.Inventory.Logging.Redaction.{redact_secrets}
use tarea_integracion_sistem.Inventory.Logging.Redaction.Urls.{redact_secrets_url}

url_example :
    redact_secrets
      ((b'p' ∷ text "ostgresql") ++ (text "://" ++ (text "app:secret" ++ (b'@' ∷ text "db/app"))))
    ≡ (b'p' ∷ text "ostgresql") ++ (text "://***@" ++ redact_secrets (text "db/app"))
unfolding is_space
url_example =
    redact_secrets_url b'p' (text "ostgresql") (text "app:secret") (text "db/app") refl refl refl
      (omega arith)
