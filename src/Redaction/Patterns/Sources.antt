-- ===== src/Redaction/Patterns/Sources.antt =====
-- The expressions of the statics of patterns.rs, as they are written there.
use clipy_si_core.Text.{Bytes, ascii}

abbrev pub github_token : Bytes
github_token = ascii "\\bgh[posru]_[A-Za-z0-9]{36,255}\\b"

abbrev pub github_pat : Bytes
github_pat = ascii "\\bgithub_pat_[A-Za-z0-9_]{40,255}\\b"

abbrev pub openai_key : Bytes
openai_key = ascii "\\bsk-(?:proj-)?[A-Za-z0-9]{20,}\\b"

abbrev pub stripe_key : Bytes
stripe_key = ascii "\\b(?:sk|rk)_(?:live|test)_[A-Za-z0-9]{16,}\\b"

abbrev pub gitlab_token : Bytes
gitlab_token = ascii "\\bglpat-[A-Za-z0-9_-]{20,}\\b"

abbrev pub aws_access_key_id : Bytes
aws_access_key_id = ascii "\\b(?:AKIA|ASIA|AGPA|AIDA|AROA|AIPA|ANPA|ANVA)[A-Z0-9]{16}\\b"

abbrev pub jwt : Bytes
jwt = ascii "\\beyJ[A-Za-z0-9_-]{8,}\\.[A-Za-z0-9_-]{8,}\\.[A-Za-z0-9_-]{8,}"

abbrev pub slack_token : Bytes
slack_token = ascii "\\b(?:xox[baprse]|xapp)-[A-Za-z0-9-]{10,}\\b"

abbrev pub slack_webhook : Bytes
slack_webhook = ascii "https://hooks\\.slack\\.com/services/T[A-Z0-9]+/B[A-Z0-9]+/[A-Za-z0-9]{20,}"

abbrev pub google_api_key : Bytes
google_api_key = ascii "\\bAIza[A-Za-z0-9_-]{35}\\b"

abbrev pub google_oauth_secret : Bytes
google_oauth_secret = ascii "\\bGOCSPX-[A-Za-z0-9_-]{20,}\\b"

abbrev pub sendgrid_key : Bytes
sendgrid_key = ascii "\\bSG\\.[A-Za-z0-9_-]{22}\\.[A-Za-z0-9_-]{43}\\b"

abbrev pub npm_token : Bytes
npm_token = ascii "\\bnpm_[A-Za-z0-9]{36}\\b"

abbrev pub private_key_block : Bytes
private_key_block = ascii "-----BEGIN (?:[A-Z0-9 ]+ )?PRIVATE KEY-----"

abbrev pub connection_string : Bytes
connection_string =
    ascii
      "(?i)\\b(?:https?|postgres|postgresql|mysql|mariadb|mongodb|mongodb\\+srv|redis|rediss|amqp|amqps|ftp|ftps|sftp|ssh|smtp|smtps|imap|imaps|ldap|ldaps|kafka|nats|mqtt|mqtts)://[^/\\s:@]*:(?P<val>[^/\\s:@]+)@"

abbrev pub authz_bearer : Bytes
authz_bearer =
    ascii
      "(?i)\\b(?:proxy-)?authorization\\s*:\\s*(?:bearer|basic|token)\\s+(?P<val>[A-Za-z0-9._~+/=-]{8,})"

abbrev pub url_embedded_secret : Bytes
url_embedded_secret =
    ascii
      "(?i)\\bhttps?://[^\\s]*[?&](?:access_token|refresh_token|id_token|auth_token|token|api[_-]?key|client_secret|password|passwd|pwd|signature)=(?P<val>[^\\s&#]{3,})"

abbrev pub key_value_secret : Bytes
key_value_secret =
    ascii
      "(?i)(?:^|[^A-Za-z0-9])(?:password|passwd|pwd|secret|api[_-]?key|client_secret|secret_key|access_key|aws_secret_access_key|private_key|auth_token)\\s*[:=]\\s*[\"']?(?P<val>[^\\s\"']{4,})"

abbrev pub data_uri : Bytes
data_uri = ascii "(?i)\\bdata:[^,\\s]*;base64,[A-Za-z0-9+/=]+"
