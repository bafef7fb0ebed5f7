-- ===== src/Proxy/Base.antt =====
-- `BaseConfig` of controller/internal/proxy/render.go, before and after the password's place.
use kubetraffic.Prelude.{Str, bytes, ◌++◌}

unfoldable pub base_before_password : Str
base_before_password =
    bytes "global\n"
    ++ (bytes "    master-worker\n"
        ++ (bytes "    log stdout format raw local0 info\n"
            ++ (bytes
                  "    stats socket /var/run/haproxy.sock mode 660 level admin expose-fd listeners\n"
                ++ (bytes "    hard-stop-after 15s\n"
                    ++ (bytes "\n"
                        ++ (bytes "userlist haproxy-dataplaneapi\n"
                            ++ (bytes "    user admin insecure-password ")))))))

unfoldable pub base_after_password : Str
base_after_password =
    bytes "\n"
    ++ (bytes "\n"
        ++ (bytes "program api\n"
            ++ (bytes
                  "    command dataplaneapi --host 0.0.0.0 --port 5555 --haproxy-bin /usr/local/sbin/haproxy --config-file /usr/local/etc/haproxy/haproxy.cfg --reload-cmd /usr/local/etc/haproxy/reload.sh --restart-cmd /usr/local/etc/haproxy/restart.sh --reload-delay 5 --transaction-dir /tmp/haproxy --userlist haproxy-dataplaneapi --scheme http\n"
                ++ (bytes "    no option start-on-reload\n"
                    ++ (bytes "\n"
                        ++ (bytes "defaults\n"
                            ++ (bytes "    mode http\n"
                                ++ (bytes "    log global\n"
                                    ++ (bytes "    option httplog\n"
                                        ++ (bytes "    option dontlognull\n"
                                            ++ (bytes "    retries 2\n"
                                                ++ (bytes "    timeout connect 5s\n"
                                                    ++ (bytes "    timeout client 30s\n"
                                                        ++ (bytes "    timeout server 30s\n"
                                                            ++ (bytes
                                                            "    timeout http-request 10s\n"
                                                            ++ (bytes "\n"
                                                            ++ (bytes "frontend stats\n"
                                                            ++ (bytes "    bind :8404\n"
                                                            ++ (bytes
                                                            "    http-request use-service prometheus-exporter if { path /metrics }\n"
                                                            ++ (bytes "    stats enable\n"
                                                            ++ (bytes "    stats uri /stats\n"
                                                            ++ (bytes "    stats refresh 10s\n"
                                                            ++ (bytes "\n")))))))))))))))))))))))

-- `strings.ReplaceAll(BaseConfig, "{{DATAPLANE_PASSWORD}}", password)`: the place occurs once.
unfoldable pub base_config : Str → Str
unfolding base_before_password base_after_password
base_config password = base_before_password ++ (password ++ base_after_password)
