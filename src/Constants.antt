-- ===== src/Constants.antt =====
-- constants/main.go: the constants that the model's code reads.
use mmar.Prelude.{ℕ, Bytes, codes, List, [], ◌∷◌}

abbrev pub tunnel_message_protocol_version : ℕ
tunnel_message_protocol_version = 4

abbrev pub tunnel_message_data_delimiter : ℕ
tunnel_message_data_delimiter = b'\n'

abbrev pub id_charset : Bytes
id_charset = codes "abcdefghijklmnopqrstuvwxyz0123456789"

abbrev pub id_length : ℕ
id_length = 6

abbrev pub max_tunnels_per_ip : ℕ
max_tunnels_per_ip = 5

abbrev pub max_req_body_size : ℕ
max_req_body_size = 10000000

abbrev pub request_id_buff_size : ℕ
request_id_buff_size = 4

abbrev pub client_disconnect_err_text : Bytes
client_disconnect_err_text = codes "Tunnel is closed, cannot connect to mmar client."

abbrev pub localhost_not_running_err_text : Bytes
localhost_not_running_err_text = codes "Tunneled successfully, but nothing is running on localhost."

abbrev pub dest_request_timedout_err_text : Bytes
dest_request_timedout_err_text = codes "Destination server took too long to respond"

abbrev pub read_body_chunk_err_text : Bytes
read_body_chunk_err_text = codes "Error reading request body"

abbrev pub read_body_chunk_timeout_err_text : Bytes
read_body_chunk_timeout_err_text = codes "Timeout reading request body"

abbrev pub read_resp_body_err_text : Bytes
read_resp_body_err_text =
    codes
      "Could not read response from destination server, check your server's logs for any errors."

abbrev pub max_req_body_size_err_text : Bytes
max_req_body_size_err_text = codes "Request too large"

abbrev pub failed_to_forward_to_mmar_client_err_text : Bytes
failed_to_forward_to_mmar_client_err_text = codes "Failed to forward request to mmar client"

abbrev pub failed_to_read_resp_from_mmar_client_err_text : Bytes
failed_to_read_resp_from_mmar_client_err_text = codes "Fail to read response from mmad client"

abbrev pub invalid_subdomain_name_err_text : Bytes
invalid_subdomain_name_err_text =
    codes
      "Invalid subdomain name. Subdomain must be 1-63 characters long, contain only alphanumeric characters and hyphens, and cannot start or end with a hyphen."

abbrev pub subdomain_already_taken_err_text : Bytes
subdomain_already_taken_err_text =
    codes "Subdomain name is already taken. Please choose a different name."

abbrev pub auth_token_required_err_text : Bytes
auth_token_required_err_text = codes "Authentication token is required to create tunnels."

abbrev pub auth_token_invalid_err_text : Bytes
auth_token_invalid_err_text = codes "Invalid authentication token provided."

abbrev pub auth_token_limit_exceeded_err_text : Bytes
auth_token_limit_exceeded_err_text = codes "Tunnel limit exceeded for this authentication token."

abbrev pub server_stats_default_username : Bytes
server_stats_default_username = codes "admin"

abbrev pub server_stats_default_password : Bytes
server_stats_default_password = codes "admin"

abbrev pub mmar_version : Bytes
mmar_version = codes "0.2.6"

abbrev pub version_cmd : Bytes
version_cmd = codes "version"

abbrev pub server_cmd : Bytes
server_cmd = codes "server"

abbrev pub client_cmd : Bytes
client_cmd = codes "client"

abbrev pub client_local_port : Bytes
client_local_port = codes "8000"

abbrev pub server_http_port : Bytes
server_http_port = codes "3376"

abbrev pub server_tcp_port : Bytes
server_tcp_port = codes "6673"

abbrev pub tunnel_host : Bytes
tunnel_host = codes "mmar.dev"

abbrev pub tunnel_http_port : Bytes
tunnel_http_port = codes "443"

abbrev pub mmar_env_var_server_http_port : Bytes
mmar_env_var_server_http_port = codes "MMAR__SERVER_HTTP_PORT"

abbrev pub mmar_env_var_server_tcp_port : Bytes
mmar_env_var_server_tcp_port = codes "MMAR__SERVER_TCP_PORT"

abbrev pub mmar_env_var_local_port : Bytes
mmar_env_var_local_port = codes "MMAR__LOCAL_PORT"

abbrev pub mmar_env_var_tunnel_http_port : Bytes
mmar_env_var_tunnel_http_port = codes "MMAR__TUNNEL_HTTP_PORT"

abbrev pub mmar_env_var_tunnel_tcp_port : Bytes
mmar_env_var_tunnel_tcp_port = codes "MMAR__TUNNEL_TCP_PORT"

abbrev pub mmar_env_var_tunnel_host : Bytes
mmar_env_var_tunnel_host = codes "MMAR__TUNNEL_HOST"

abbrev pub mmar_env_var_custom_dns : Bytes
mmar_env_var_custom_dns = codes "MMAR__CUSTOM_DNS"

abbrev pub mmar_env_var_custom_cert : Bytes
mmar_env_var_custom_cert = codes "MMAR__CUSTOM_CERT"

abbrev pub mmar_env_var_custom_name : Bytes
mmar_env_var_custom_name = codes "MMAR__CUSTOM_NAME"

abbrev pub mmar_env_var_api_key : Bytes
mmar_env_var_api_key = codes "MMAR__API_KEY"

abbrev pub mmar_env_var_api_keys_file : Bytes
mmar_env_var_api_keys_file = codes "MMAR__API_KEYS_FILE"

abbrev pub default_color : Bytes
default_color = []

abbrev pub red : Bytes
red = 27 ∷ codes "[31m"

abbrev pub green : Bytes
green = 27 ∷ codes "[32m"

abbrev pub yellow : Bytes
yellow = 27 ∷ codes "[33m"

abbrev pub blue : Bytes
blue = 27 ∷ codes "[34m"

abbrev pub reset : Bytes
reset = 27 ∷ codes "[0m"

abbrev pub mmar_subcommands : List (List Bytes)
mmar_subcommands =
    (codes "server"
      ∷ codes
          "Runs a mmar server. Run this on your publicly reachable server if you're self-hosting mmar."
      ∷ [])
    ∷ (codes "client"
        ∷ codes
            "Runs a mmar client. Run this on your machine to expose your localhost on a public URL."
        ∷ [])
    ∷ (codes "version" ∷ codes "Prints the installed version of mmar." ∷ [])
    ∷ []
