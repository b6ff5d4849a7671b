-- ===== src/Shell/Jobs.antt =====
-- The job list of C/CSAPPLab/shell/tsh.c and the helpers on it. A job is named by its index in `jobs`.
pub mod Slots
pub mod Laws
use code_snippet.Prelude.{
  ℕ, zero, suc, ◌+◌, Option, none, some, Bool, true, false, ◌==◌, ltb, if◌then◌else◌, List, [], ◌∷◌,
  replicate,
}

-- UNDEF 0, FG 1, BG 2, ST 3.
abbrev pub undef : ℕ
undef = 0

abbrev pub fg : ℕ
fg = 1

abbrev pub bg : ℕ
bg = 2

abbrev pub st : ℕ
st = 3

abbrev pub maxjobs : ℕ
maxjobs = 16

-- `struct job_t`. The characters of the command line are numbers; a process id is never negative here.
pub record Job : Type 0 where
  pub pid : ℕ
  pub jid : ℕ
  pub state : ℕ
  pub cmdline : List ℕ

-- The globals `jobs` and `nextjid`.
pub record Shell : Type 0 where
  pub jobs : List Job
  pub nextjid : ℕ

-- Only the first character of the command line is cleared, which makes it the empty string.
abbrev pub cleared : Job
cleared = record { pid = 0; jid = 0; state = undef; cmdline = [] }

unfoldable pub clearjob : Job → Job
clearjob job = cleared

unfoldable pub initjobs : List Job
initjobs = replicate maxjobs cleared

-- The loop of `maxjid` with the largest number so far.
unfoldable pub maxjid_from : ℕ → List Job → ℕ
maxjid_from m [] = m
maxjid_from m (j ∷ js) = maxjid_from (if ltb m j.jid then j.jid else m) js

unfoldable pub maxjid : List Job → ℕ
maxjid jobs = maxjid_from 0 jobs

-- The first free slot takes the new job. `none` is a full list.
unfoldable pub add_first : Job → List Job → Option (List Job)
add_first new [] = none
add_first new (j ∷ js) =
    let rest = add_first new js in
    if j.pid == 0 then some (new ∷ js) else elim rest [ none ↦ none | some js' ↦ some (j ∷ js') ]

abbrev pub wrap : ℕ → ℕ
wrap n = if ltb maxjobs n then 1 else n

-- The result and the globals afterwards.
unfoldable pub addjob : ℕ → ℕ → List ℕ → Shell → ℕ × Shell
addjob pid state cmdline s =
    let new : Job = record { pid = pid; jid = s.nextjid; state = state; cmdline = cmdline } in
    let added : ℕ × Shell = elim (add_first new s.jobs) [
      | none ↦ (0, s)
      | some jobs ↦ (1, record { jobs = jobs; nextjid = wrap (s.nextjid + 1) })
    ] in
    if ltb pid 1 then (0, s) else added

-- Clears the first job of process `pid`. `none` is a list without one.
unfoldable pub delete_first : ℕ → List Job → Option (List Job)
delete_first pid [] = none
delete_first pid (j ∷ js) =
    let rest = delete_first pid js in
    if j.pid == pid
    then some (clearjob j ∷ js)
    else elim rest [ none ↦ none | some js' ↦ some (j ∷ js') ]

unfoldable pub deletejob : ℕ → Shell → ℕ × Shell
deletejob pid s =
    let deleted : ℕ × Shell = elim (delete_first pid s.jobs) [
      | none ↦ (0, s)
      | some jobs ↦ (1, record { jobs = jobs; nextjid = maxjid jobs + 1 })
    ] in
    if ltb pid 1 then (0, s) else deleted

unfoldable pub fgpid : List Job → ℕ
fgpid [] = 0
fgpid (j ∷ js) = if j.state == fg then j.pid else fgpid js

-- The index of the first job that passes the test.
unfoldable pub find_from : (Job → Bool) → ℕ → List Job → Option ℕ
find_from test i [] = none
find_from test i (j ∷ js) = let rest = find_from test (suc i) js in if test j then some i else rest

unfoldable pub getjobpid : ℕ → List Job → Option ℕ
getjobpid pid jobs = if ltb pid 1 then none else find_from (λ j. j.pid == pid) 0 jobs

unfoldable pub getjobjid : ℕ → List Job → Option ℕ
getjobjid jid jobs = if ltb jid 1 then none else find_from (λ j. j.jid == jid) 0 jobs

unfoldable pub pid2jid_in : ℕ → List Job → ℕ
pid2jid_in pid [] = 0
pid2jid_in pid (j ∷ js) = if j.pid == pid then j.jid else pid2jid_in pid js

unfoldable pub pid2jid : ℕ → List Job → ℕ
pid2jid pid jobs = if ltb pid 1 then 0 else pid2jid_in pid jobs

-- A line of `listjobs`: the text of the state, and the job's numbers and command.
pub data StateText : Type 0 where
  running : StateText
  foreground : StateText
  stopped : StateText
  internal_error : ℕ → ℕ → StateText

pub record Line : Type 0 where
  pub jid : ℕ
  pub pid : ℕ
  pub text : StateText
  pub cmdline : List ℕ

unfoldable pub state_text : ℕ → ℕ → StateText
state_text i v =
    if v == bg
    then running
    else if v == fg
    then foreground
    else if v == st
    then stopped
    else internal_error i v

unfoldable pub list_from : ℕ → List Job → List Line
list_from i [] = []
list_from i (j ∷ js) =
    let rest = list_from (suc i) js in
    if j.pid == 0
    then rest
    else record { jid = j.jid; pid = j.pid; text = state_text i j.state; cmdline = j.cmdline }
      ∷ rest

unfoldable pub listjobs : List Job → List Line
listjobs jobs = list_from 0 jobs
