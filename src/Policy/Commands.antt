-- ===== src/Policy/Commands.antt =====
-- src/policy/commands.ts: the commands that the policy knows by name.
use supabash_fs.Prelude.{Bool, List, Text, [], includes, text, ◌||◌, ◌∷◌}

abbrev pub network_commands : List Text
network_commands =
    text "aria2c"
    ∷ text "curl"
    ∷ text "dig"
    ∷ text "ftp"
    ∷ text "host"
    ∷ text "nc"
    ∷ text "ncat"
    ∷ text "netcat"
    ∷ text "nmap"
    ∷ text "nslookup"
    ∷ text "ping"
    ∷ text "rsync"
    ∷ text "scp"
    ∷ text "sftp"
    ∷ text "ssh"
    ∷ text "telnet"
    ∷ text "wget"
    ∷ text "wget2"
    ∷ []

abbrev pub host_escape_commands : List Text
host_escape_commands =
    text "chroot"
    ∷ text "dd"
    ∷ text "doas"
    ∷ text "docker"
    ∷ text "halt"
    ∷ text "kill"
    ∷ text "killall"
    ∷ text "kubectl"
    ∷ text "launchctl"
    ∷ text "losetup"
    ∷ text "mkfs"
    ∷ text "mount"
    ∷ text "pkill"
    ∷ text "podman"
    ∷ text "poweroff"
    ∷ text "reboot"
    ∷ text "shutdown"
    ∷ text "su"
    ∷ text "sudo"
    ∷ text "systemctl"
    ∷ text "umount"
    ∷ []

abbrev pub dangerous_commands : List Text
dangerous_commands =
    text "."
    ∷ text "bun"
    ∷ text "deno"
    ∷ text "eval"
    ∷ text "exec"
    ∷ text "js-exec"
    ∷ text "node"
    ∷ text "perl"
    ∷ text "php"
    ∷ text "python"
    ∷ text "python2"
    ∷ text "python3"
    ∷ text "ruby"
    ∷ text "source"
    ∷ text "xargs"
    ∷ []

abbrev pub allowed_commands : List Text
allowed_commands =
    text "["
    ∷ text "awk"
    ∷ text "base64"
    ∷ text "basename"
    ∷ text "bash"
    ∷ text "builtin"
    ∷ text "cat"
    ∷ text "cd"
    ∷ text "chmod"
    ∷ text "clear"
    ∷ text "column"
    ∷ text "comm"
    ∷ text "command"
    ∷ text "cp"
    ∷ text "cut"
    ∷ text "date"
    ∷ text "declare"
    ∷ text "diff"
    ∷ text "dirname"
    ∷ text "du"
    ∷ text "echo"
    ∷ text "egrep"
    ∷ text "env"
    ∷ text "expand"
    ∷ text "export"
    ∷ text "expr"
    ∷ text "false"
    ∷ text "fgrep"
    ∷ text "file"
    ∷ text "find"
    ∷ text "fold"
    ∷ text "grep"
    ∷ text "head"
    ∷ text "help"
    ∷ text "history"
    ∷ text "hostname"
    ∷ text "jq"
    ∷ text "let"
    ∷ text "ln"
    ∷ text "local"
    ∷ text "ls"
    ∷ text "mapfile"
    ∷ text "md5sum"
    ∷ text "mkdir"
    ∷ text "mv"
    ∷ text "nl"
    ∷ text "nohup"
    ∷ text "od"
    ∷ text "paste"
    ∷ text "printf"
    ∷ text "pwd"
    ∷ text "read"
    ∷ text "readlink"
    ∷ text "realpath"
    ∷ text "return"
    ∷ text "rev"
    ∷ text "rg"
    ∷ text "rm"
    ∷ text "rmdir"
    ∷ text "sed"
    ∷ text "seq"
    ∷ text "set"
    ∷ text "sh"
    ∷ text "sha1sum"
    ∷ text "sha256sum"
    ∷ text "shift"
    ∷ text "shopt"
    ∷ text "sleep"
    ∷ text "sort"
    ∷ text "split"
    ∷ text "sqlite3"
    ∷ text "stat"
    ∷ text "strings"
    ∷ text "tac"
    ∷ text "tail"
    ∷ text "tar"
    ∷ text "tee"
    ∷ text "test"
    ∷ text "time"
    ∷ text "timeout"
    ∷ text "touch"
    ∷ text "tr"
    ∷ text "tree"
    ∷ text "true"
    ∷ text "type"
    ∷ text "umask"
    ∷ text "uname"
    ∷ text "uniq"
    ∷ text "unset"
    ∷ text "wc"
    ∷ text "which"
    ∷ text "whoami"
    ∷ text "yq"
    ∷ []

abbrev pub wrapper_commands : List Text
wrapper_commands =
    text "builtin"
    ∷ text "command"
    ∷ text "env"
    ∷ text "nice"
    ∷ text "nohup"
    ∷ text "stdbuf"
    ∷ text "time"
    ∷ text "timeout"
    ∷ []

abbrev pub is_network_command : Text → Bool
is_network_command head = includes network_commands head

abbrev pub is_host_escape_command : Text → Bool
is_host_escape_command head = includes host_escape_commands head

abbrev pub is_dangerous_command : Text → Bool
is_dangerous_command head = includes dangerous_commands head

abbrev pub is_allowed_command : Text → List Text → Bool
is_allowed_command head extra = includes allowed_commands head || includes extra head

abbrev pub is_wrapper_command : Text → Bool
is_wrapper_command head = includes wrapper_commands head
