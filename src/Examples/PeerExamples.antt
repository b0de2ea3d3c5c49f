-- ===== src/Examples/PeerExamples.antt =====
-- The properties of what nodes send each other (agent/src/grpc_client, agent/src/grpc_server).
use all4one.Prelude.{
  ℕ, ◌+◌, ◌-◌, decimal, ◌≡◌, refl, true, false, Option, none, some, List, [], ◌∷◌, ◌++◌, Text,
  Bytes, codes, get, insert, trim, trim_start, trim_end, before_trimmed, is_whitespace,
  replace_slash, ok, nat_eq, list_eq, arith,
}
use all4one.Common.{NodeId, NodeInfo, failed, executable}
use all4one.Cluster.Discovery.{new_peer}
use all4one.Cluster.Discovery.Keys.{Keyed}
use all4one.External.SledModel.{cell_db}
use all4one.Storage.Policy.{warm, zstd_level, policy_name, replicas}
use all4one.Storage.Index.{new_metadata}
use all4one.Storage.Chunks.{Store, compress, put_chunks, get_chunks, read_shards}
use all4one.Jobs.Records.{pos, Jobs, apply_terminal_job_update}
use all4one.Jobs.Submission.{SubmitJobRequest, new_record}
use all4one.Jobs.Executor.{exited, outcome_report, exit_report}
use all4one.Jobs.Dispatch.{Self, World, Call}
use all4one.Certificates.{has_ca_key, cert_path, ca_key, ca_crt, init_ca, load_ca_pem}
use all4one.Grpc.Messages.{JoinMessage, report_message}
use all4one.Grpc.Server.{report_job_status}
use all4one.Grpc.Server.Reports.{report_round_trip}
use all4one.Grpc.Join.{Security, JoinReply, Issuer, joining_node, check_secret, enroll, admit, join}
use all4one.Grpc.Join.Admission.{Admitted, SecretFits, join_lem, join_without_secret}
use all4one.Grpc.Chunks.{transfers_of, receive_all}
use all4one.Grpc.Chunks.Replication.{get_chunks-transfers_of}
use all4one.Examples.Stored.{chunk_deps}

-- An id's text is one letter, the one that the id follows.
abbrev id_text : NodeId → Text
id_text i = (b'a' + i) ∷ []

abbrev parse_id : Text → Option NodeId
parse_id (i ∷ []) = some (i - b'a')
parse_id _ = none

abbrev time_text : ℕ → Text
time_text t = codes "t"

abbrev request : SubmitJobRequest
request = record {
  runtime = executable;
  source = codes "/bin/true";
  command = [];
  resources = record { cpu_cores = 1; memory_mb = 64 };
  constraints = record { tier_min = 0; requires_capabilities = record { needs_docker = false } };
}

abbrev jobs : Jobs
jobs = (5, new_record 10 1 5 request) ∷ []

report_round_trip_example :
    (report_job_status id_text parse_id time_text 30
      (report_message id_text 5 (outcome_report (exited (some (pos 2)))) 2)
      jobs).0
    ≡ (
      ok tt,
      (
        5,
        record (new_record 10 1 5 request) {
          status = failed;
          exit_code = some (pos 2);
          error = some (codes "process exited with code 2");
          updated_at = 30;
        },
      )
          ∷ [],
    )
unfolding apply_terminal_job_update outcome_report exit_report get insert decimal
report_round_trip_example =
    report_round_trip id_text 5 2 parse_id time_text 30 (exited (some (pos 2))) jobs _ refl refl

abbrev node : NodeId → NodeInfo
node i =
    new_peer i
      (record { id = i ∷ []; tier = 1; grpc_endpoint = codes "h:1"; rest_endpoint = codes "h:1" })

abbrev self : Self
self = record { node_id = 2; local_node = node 2 }

abbrev world : World
world = record { jobs = []; cluster = record { nodes = []; version = 0 } }

abbrev call : Call
call = record { before = λ w. w; during = λ w. w; deliver = λ e m. true; now = 20 }

abbrev letter_clock : ℕ → Text
letter_clock n = codes "t"

abbrev empty_store : Store chunk_deps
empty_store = record { files = []; db = cell_db.empty }

abbrev hello_json : Bytes
hello_json = b'b' ∷ b'k' ∷ b't' ∷ b't' ∷ 5 ∷ 1 ∷ 4 ∷ (codes "warm" ++ codes "hello")

get_chunks-transfers_of_example :
    let m = new_metadata (codes "t") (codes "t") (codes "b") (codes "k") (codes "hello") 5 warm in
    let stored =
      put_chunks chunk_deps letter_clock (codes "b") (codes "k") (codes "hello") warm empty_store in
    let sent = transfers_of m (read_shards chunk_deps (codes "b") (codes "k") stored.1).0 in
    (stored.0 ≡ ok m)
    × ((get_chunks chunk_deps
          (codes "b")
          (codes "k")
          (receive_all chunk_deps (λ n. letter_clock) 0 sent empty_store)).0
        ≡ ok (codes "hello"))
unfolding compress zstd_level policy_name replicas replace_slash
get_chunks-transfers_of_example =
    get_chunks-transfers_of chunk_deps letter_clock (λ n. letter_clock) (codes "b") (codes "k")
      (codes "hello") (codes "hello") hello_json (λ n. hello_json) warm empty_store empty_store refl
      refl (omega arith) refl (λ n. refl)

-- The issuer has its key and its certificate, and knows itself.
abbrev issuer : Issuer
issuer = record {
  files = (cert_path ca_key, codes "key") ∷ (cert_path ca_crt, codes "ca") ∷ [];
  shared = record { cluster = record { nodes = (1, node 1) ∷ []; version = 0 }; last_seen = [] };
}

abbrev shared_secret : Security
shared_secret = record { mode = codes "shared-secret"; shared_secret = codes " s3 " }

abbrev asking : Text → JoinMessage
asking secret = record {
  node_id = codes "d";
  csr_pem = [];
  join_secret = secret;
  tier = 1;
  grpc_endpoint = codes "h:3";
  rest_endpoint = codes "h:4";
}

abbrev signed : List Text → Option (Bytes × Bytes)
signed names = some (codes "crt", codes "key")

abbrev granted : JoinReply
granted = record {
  node_cert_pem = codes "crt";
  node_key_pem = codes "key";
  ca_cert_pem = codes "ca";
  expires_at_unix = 7_776_100;
}

abbrev joined : Issuer
joined = record issuer {
  shared = admit 20 (joining_node (codes "1") 3 (asking (codes "s3"))) issuer.shared;
}

join_lem_example :
    (id : NodeId) × (parse_id (codes "d") ≡ some id)
    × (has_ca_key issuer.files ≡ true)
    × SecretFits shared_secret (trim (codes "s3"))
    × Admitted 20 (joining_node (codes "1") id (asking (codes "s3"))) joined.shared
    × Keyed joined.shared.cluster.nodes
unfolding join check_secret enroll init_ca load_ca_pem has_ca_key cert_path trim trim_start trim_end
    before_trimmed is_whitespace get new_peer
join_lem_example =
    join_lem id_text parse_id signed (codes "1") 20 100 shared_secret (asking (codes "s3")) issuer
      joined granted refl (refl, tt)

join_without_secret_example :
    join id_text parse_id signed shared_secret (codes "1") 20 100 (asking []) issuer
    ≡ join id_text parse_id signed
        (record { mode = codes "ca"; shared_secret = [] })
        (codes "1")
        20
        100
        (asking [])
        issuer
unfolding trim trim_start trim_end
join_without_secret_example =
    join_without_secret id_text parse_id signed (codes "1") 20 100 shared_secret
      (record { mode = codes "ca"; shared_secret = [] }) (asking []) issuer refl
