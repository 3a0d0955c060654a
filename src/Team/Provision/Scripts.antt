-- ===== src/Team/Provision/Scripts.antt =====
-- The shell scripts of ensureInitJob and ensurePushBranchJob, line by line.
use kagents.Prelude.{String, List, ◌<>◌, join}

unfoldable pub init_script : String → String → List String → String → String
init_script url branch teammates team_name =
    let names = join teammates " " in
    "\n" <> "set -eu\n" <> "echo \"[init] Cloning " <> url <> " @ " <> branch <> "\"\n"
    <> "git clone --branch " <> branch <> " " <> url <> " /workspace/repo\n"
    <> "cd /workspace/repo\n" <> "\n" <> "echo \"[init] Creating per-teammate worktrees\"\n"
    <> "for tm in " <> names <> "; do\n"
    <> "  git worktree add /workspace/worktrees/$tm -b teammate-$tm\n"
    <> "  echo \"  worktree: /workspace/worktrees/$tm\"\n" <> "done\n" <> "\n"
    <> "echo \"[init] Initialising team-state directories\"\n" <> "mkdir -p /state/teams/"
    <> team_name <> "/inboxes\n" <> "mkdir -p /state/tasks/" <> team_name <> "\n"
    <> "printf '{\"tasks\":[],\"version\":1}\\n' > /state/tasks/" <> team_name <> "/tasks.json\n"
    <> "\n" <> "echo \"[init] Done\"\n"

unfoldable pub push_script : String → String → List String → String
push_script base_branch consolidated_branch teammates =
    let names = join teammates " " in
    "\n" <> "set -eu\n" <> "cd /workspace/repo\n" <> "\n"
    <> "# Identity for merge commits. These are operator-generated merges; using a\n"
    <> "# distinct identity makes git log | grep trivially filter them.\n"
    <> "git config user.email \"operator@claude-teams.local\"\n"
    <> "git config user.name \"kagents\"\n" <> "\n"
    <> "# Fresh consolidated branch rooted at the current base tip.\n" <> "git fetch origin "
    <> base_branch <> "\n" <> "git checkout -B " <> consolidated_branch <> " origin/" <> base_branch
    <> "\n" <> "\n"
    <> "# Merge each teammate worktree branch. A teammate that didn't commit anything\n"
    <> "# produces \"Already up to date.\" which is fine. A merge conflict fails the Job\n"
    <> "# — human resolution required before push.\n" <> "for TM in " <> names <> "; do\n"
    <> "  git merge --no-ff -m \"merge teammate $TM\" \"teammate-$TM\" || {\n"
    <> "    echo \"[push-branch] merge conflict on teammate $TM\"\n" <> "    exit 1\n" <> "  }\n"
    <> "done\n" <> "\n"
    <> "# HTTPS push with token embedded when available. SSH support is a follow-up.\n"
    <> "if [ -n \"${GIT_TOKEN:-}\" ]; then\n" <> "  ORIGIN_URL=\"$(git remote get-url origin)\"\n"
    <> "  case \"$ORIGIN_URL\" in\n" <> "    https://*)\n"
    <> "      PUSH_URL=\"$(echo \"$ORIGIN_URL\" | sed \"s|^https://|https://${GIT_TOKEN}@|\")\"\n"
    <> "      git remote set-url origin \"$PUSH_URL\"\n" <> "      ;;\n" <> "  esac\n" <> "fi\n"
    <> "git push origin " <> consolidated_branch <> "\n" <> "echo \"[push-branch] Pushed "
    <> consolidated_branch <> "\"\n"
