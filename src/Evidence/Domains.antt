-- ===== src/Evidence/Domains.antt =====
-- `REQUIRED`, `ALIASES` and `_resolve_domain` of evidence_completeness_checker.py.
use storageops.Base.{
  ℕ, suc, zero, ◌-◌, ◌==◌, if◌then◌else◌, true, false, Option, none, some, List, [], ◌∷◌, map,
  length, Text, txt, ◌===◌, lower, strip, starts_with,
}

-- The keys of `REQUIRED`.
pub data Domain : Type 0 where
  signature_auth permission_access_denied s3_protocol_compatibility cli_sdk_behavior
        performance_throughput mount_filesystem_workspace network_endpoint_access
        security_iam_policy lifecycle_cost :
      Domain

unfoldable pub name_of : Domain → Text
unfolding txt
name_of signature_auth = txt "signature_auth"
name_of permission_access_denied = txt "permission_access_denied"
name_of s3_protocol_compatibility = txt "s3_protocol_compatibility"
name_of cli_sdk_behavior = txt "cli_sdk_behavior"
name_of performance_throughput = txt "performance_throughput"
name_of mount_filesystem_workspace = txt "mount_filesystem_workspace"
name_of network_endpoint_access = txt "network_endpoint_access"
name_of security_iam_policy = txt "security_iam_policy"
name_of lifecycle_cost = txt "lifecycle_cost"

-- The label of an item, and its keywords.
abbrev pub Item : Type 0
Item = Text × List Text

unfoldable pub required : Domain → List Item
unfolding txt
required signature_auth =
    (txt "error message", txt "SignatureDoesNotMatch" ∷ txt "error" ∷ txt "message" ∷ [])
    ∷ (txt "canonical request", txt "CanonicalRequest" ∷ txt "canonical request" ∷ [])
    ∷ (txt "string to sign", txt "StringToSign" ∷ txt "string to sign" ∷ [])
    ∷ (txt "endpoint/region config", txt "endpoint" ∷ txt "region" ∷ [])
    ∷ (
      txt "tool/SDK name + version",
      txt "version" ∷ txt "sdk" ∷ txt "rclone" ∷ txt "awscli" ∷ txt "boto" ∷ [],
    )
    ∷ (txt "addressing style", txt "virtual-hosted" ∷ txt "path-style" ∷ txt "path style" ∷ [])
    ∷ (txt "request timestamp", txt "timestamp" ∷ txt "date" ∷ txt "clock" ∷ [])
    ∷ []
required permission_access_denied =
    (
      txt "403 error body",
      txt "403" ∷ txt "AccessDenied" ∷ txt "access denied" ∷ txt "forbidden" ∷ [],
    )
    ∷ (txt "bucket/key", txt "bucket" ∷ txt "key" ∷ txt "object" ∷ [])
    ∷ (
      txt "action attempted",
      txt "s3:" ∷ txt "getobject" ∷ txt "putobject" ∷ txt "listbucket" ∷ txt "action" ∷ [],
    )
    ∷ (txt "identity ARN", txt "arn:" ∷ txt "role" ∷ txt "user" ∷ txt "iam" ∷ [])
    ∷ (txt "bucket policy", txt "bucket policy" ∷ txt "policy" ∷ [])
    ∷ (
      txt "temporary credentials?",
      txt "sts" ∷ txt "temporary" ∷ txt "session token" ∷ txt "assume" ∷ [],
    )
    ∷ []
required s3_protocol_compatibility =
    (
      txt "provider + compat version",
      txt "provider" ∷ txt "bos" ∷ txt "oss" ∷ txt "cos" ∷ txt "minio" ∷ txt "compatib" ∷ [],
    )
    ∷ (
      txt "request method/path",
      txt "GET" ∷ txt "PUT" ∷ txt "POST" ∷ txt "HEAD" ∷ txt "method" ∷ txt "path" ∷ [],
    )
    ∷ (
      txt "request headers",
      txt "header" ∷ txt "authorization" ∷ txt "x-amz" ∷ txt "content-" ∷ [],
    )
    ∷ (txt "response status/headers", txt "status" ∷ txt "http" ∷ txt "response" ∷ [])
    ∷ (txt "response body", txt "<error>" ∷ txt "body" ∷ txt "xml" ∷ txt "message" ∷ [])
    ∷ (txt "expected vs observed", txt "expected" ∷ txt "observed" ∷ txt "works on aws" ∷ [])
    ∷ []
required cli_sdk_behavior =
    (
      txt "tool name + version",
      txt "version" ∷ txt "rclone" ∷ txt "s5cmd" ∷ txt "awscli" ∷ txt "boto" ∷ txt "mc " ∷ [],
    )
    ∷ (txt "config (redacted)", txt "config" ∷ txt "profile" ∷ txt ".conf" ∷ txt "endpoint" ∷ [])
    ∷ (txt "command line", txt "$" ∷ txt "command" ∷ txt "cp " ∷ txt "sync" ∷ txt "ls " ∷ [])
    ∷ (txt "debug/trace output", txt "debug" ∷ txt "trace" ∷ txt "-vv" ∷ txt "--debug" ∷ [])
    ∷ (txt "expected vs observed", txt "expected" ∷ txt "observed" ∷ txt "works with" ∷ [])
    ∷ []
required performance_throughput =
    (
      txt "command/tool",
      txt "rclone" ∷ txt "s5cmd" ∷ txt "aws s3" ∷ txt "command" ∷ txt "tool" ∷ [],
    )
    ∷ (
      txt "object sizes/count",
      txt "size" ∷ txt "objects" ∷ txt "files" ∷ txt "count" ∷ txt "MB" ∷ txt "GB" ∷ [],
    )
    ∷ (
      txt "concurrency/part size",
      txt "concurrency" ∷ txt "workers" ∷ txt "threads" ∷ txt "part size" ∷ txt "chunk" ∷ [],
    )
    ∷ (
      txt "observed throughput",
      txt "MB/s" ∷ txt "MiB/s" ∷ txt "Gbps" ∷ txt "throughput" ∷ txt "rate" ∷ [],
    )
    ∷ (txt "baseline/expected", txt "expected" ∷ txt "baseline" ∷ txt "should" ∷ [])
    ∷ (txt "throttle errors", txt "429" ∷ txt "503" ∷ txt "SlowDown" ∷ txt "throttl" ∷ [])
    ∷ []
required mount_filesystem_workspace =
    (
      txt "mount type",
      txt "s3fs"
          ∷ txt "rclone mount"
          ∷ txt "ossfs"
          ∷ txt "bosfs"
          ∷ txt "gcsfuse"
          ∷ txt "mountpoint"
          ∷ txt "fuse"
          ∷ [],
    )
    ∷ (
      txt "mount options",
      txt "--vfs"
          ∷ txt "cache"
          ∷ txt "stat"
          ∷ txt "attr-timeout"
          ∷ txt "dir-cache"
          ∷ txt "option"
          ∷ [],
    )
    ∷ (
      txt "workspace layout",
      txt "git" ∷ txt "node_modules" ∷ txt "venv" ∷ txt "build" ∷ txt "repo" ∷ txt "workspace" ∷ [],
    )
    ∷ (
      txt "timing comparison",
      txt "slow" ∷ txt "local" ∷ txt "ssd" ∷ txt "seconds" ∷ txt "latency" ∷ txt "vs" ∷ [],
    )
    ∷ (
      txt "fuse/kernel errors",
      txt "dmesg" ∷ txt "fuse" ∷ txt "kernel" ∷ txt "transport endpoint" ∷ [],
    )
    ∷ []
required network_endpoint_access =
    (txt "endpoint/hostname", txt "endpoint" ∷ txt "host" ∷ txt "https://" ∷ txt "url" ∷ [])
    ∷ (
      txt "DNS resolution",
      txt "dns" ∷ txt "dig" ∷ txt "nslookup" ∷ txt "nxdomain" ∷ txt "resolve" ∷ [],
    )
    ∷ (
      txt "access path type",
      txt "vpc" ∷ txt "privatelink" ∷ txt "public" ∷ txt "subnet" ∷ txt "nat" ∷ [],
    )
    ∷ (txt "TLS/cert", txt "tls" ∷ txt "ssl" ∷ txt "certificate" ∷ txt "cert" ∷ [])
    ∷ (
      txt "RTT/MTU/route",
      txt "ping"
          ∷ txt "mtr"
          ∷ txt "rtt"
          ∷ txt "mtu"
          ∷ txt "traceroute"
          ∷ txt "tracepath"
          ∷ txt "route"
          ∷ [],
    )
    ∷ (txt "proxy/NAT config", txt "proxy" ∷ txt "nat" ∷ txt "firewall" ∷ [])
    ∷ []
required security_iam_policy =
    (txt "error + request id", txt "request id" ∷ txt "requestid" ∷ txt "error" ∷ txt "denied" ∷ [])
    ∷ (txt "IAM policy JSON", txt "\"effect\"" ∷ txt "iam" ∷ txt "policy" ∷ txt "statement" ∷ [])
    ∷ (txt "bucket policy JSON", txt "bucket policy" ∷ txt "principal" ∷ txt "resource" ∷ [])
    ∷ (txt "identity type", txt "role" ∷ txt "user" ∷ txt "sts" ∷ txt "root" ∷ txt "assume" ∷ [])
    ∷ (txt "action + resource ARN", txt "s3:" ∷ txt "arn:" ∷ txt "action" ∷ txt "resource" ∷ [])
    ∷ (txt "condition keys", txt "condition" ∷ txt "aws:sourcearn" ∷ txt "stringequals" ∷ [])
    ∷ []
required lifecycle_cost =
    (
      txt "lifecycle config",
      txt "lifecycle" ∷ txt "transition" ∷ txt "expiration" ∷ txt "rule" ∷ [],
    )
    ∷ (
      txt "storage class",
      txt "standard" ∷ txt "_ia" ∷ txt "glacier" ∷ txt "archive" ∷ txt "deep_archive" ∷ [],
    )
    ∷ (
      txt "sizes/count per prefix",
      txt "size" ∷ txt "objects" ∷ txt "count" ∷ txt "prefix" ∷ txt "KB" ∷ txt "MB" ∷ [],
    )
    ∷ (
      txt "min storage duration",
      txt "minimum" ∷ txt "duration" ∷ txt "days" ∷ txt "min-billable" ∷ [],
    )
    ∷ (
      txt "access frequency",
      txt "access" ∷ txt "hot" ∷ txt "warm" ∷ txt "cold" ∷ txt "frequency" ∷ [],
    )
    ∷ []

unfoldable pub domains : List Domain
domains =
    signature_auth ∷ permission_access_denied ∷ s3_protocol_compatibility ∷ cli_sdk_behavior
    ∷ performance_throughput ∷ mount_filesystem_workspace ∷ network_endpoint_access
    ∷ security_iam_policy ∷ lifecycle_cost ∷ []

unfoldable pub aliases : List (Text × Domain)
unfolding txt
aliases =
    (txt "signature", signature_auth)
    ∷ (txt "auth", signature_auth)
    ∷ (txt "access_denied", permission_access_denied)
    ∷ (txt "permission", permission_access_denied)
    ∷ (txt "protocol", s3_protocol_compatibility)
    ∷ (txt "cli_sdk", cli_sdk_behavior)
    ∷ (txt "performance", performance_throughput)
    ∷ (txt "mount", mount_filesystem_workspace)
    ∷ (txt "network", network_endpoint_access)
    ∷ (txt "security", security_iam_policy)
    ∷ (txt "iam", security_iam_policy)
    ∷ (txt "lifecycle", lifecycle_cost)
    ∷ (txt "cost", lifecycle_cost)
    ∷ []

-- `REQUIRED` and `ALIASES` as dicts: the domain of a key.
unfoldable pub find_key : List (Text × Domain) → Text → Option Domain
unfolding ◌===◌
find_key [] d = none
find_key ((key, domain) ∷ more) d = if key === d then some domain else find_key more d

abbrev pub or_try : Option Domain → Option Domain → Option Domain
or_try (some domain) other = some domain
or_try none other = other

unfoldable pub lookup : Text → Option Domain
unfolding find_key name_of domains aliases
lookup d = or_try (find_key (map (λ x. (name_of x, x)) domains) d) (find_key aliases d)

-- `s.replace(pattern, "")`, with so many codes of a match left to skip.
unfoldable pub remove_text : Text → ℕ → Text → Text
unfolding starts_with
remove_text pattern skip [] = []
remove_text pattern (suc skip) (c ∷ s) = remove_text pattern skip s
remove_text pattern zero (c ∷ s) = elim (starts_with pattern (c ∷ s)) [
  | true ↦ remove_text pattern (length pattern - 1) s
  | false ↦ c ∷ remove_text pattern zero s
]

dash_to_underscore : ℕ → ℕ
dash_to_underscore c = if c == b'-' then b'_' else c

unfoldable pub resolve_domain : Text → Option Domain
unfolding strip lower lookup remove_text dash_to_underscore txt
resolve_domain domain =
    let d = lower (strip domain) in
    or_try (lookup d) (lookup (remove_text (txt "storageops_") 0 (map dash_to_underscore d)))
