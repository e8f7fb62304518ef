-- ===== src/Monitor/Alerts/Manager/Jobs.antt =====
-- Which jobs a bridge gets.
use tokenbridge_monitor.Base.{
  ◌≤◌, ◌≡◌, ◌⊎◌, refl, ◌∙◌, sym, inl, inr, String, Option, none, some, List, [], ◌∷◌, All,
  string_eq,
}
use tokenbridge_monitor.Config.{BridgeConfig, BridgeAlertConfig}
use tokenbridge_monitor.Config.Init.Ready.{IsReady, AlertInRange}
use tokenbridge_monitor.Exec.{Result, ok, err, panic, unknown_alert}
use tokenbridge_monitor.Monitor.Alerts.Manager.{
  Job, JobFunc, job_funcs, find_job, with_job, new_job, new_jobs, new_alert_manager,
}
use tokenbridge_monitor.Monitor.Alerts.Manager.Known.{
  AlertJob, AlertJob-find_job, find_job-AlertJob,
}

abbrev pub IsUnknown : String → Type 0
IsUnknown name = (func : JobFunc) → AlertJob name func → ⊥

abbrev pub HasUnknown : List (String × Option BridgeAlertConfig) → Type 0
HasUnknown [] = ⊥
HasUnknown (a ∷ alerts) = IsUnknown a.0 ⊎ HasUnknown alerts

-- The job runs the query of the alert, with the ids, the addresses and the senders of its own
-- bridge and from the blocks of the alert on, which are not before the bridge starts on either side.
abbrev pub IsJobFor : BridgeConfig → String × Option BridgeAlertConfig → String × Job → Type 0
IsJobFor b (name, o) (job_name, job) =
    (alert : BridgeAlertConfig) × (o ≡ some alert)
    × (job_name ≡ name)
    × AlertJob name job.func
    × (job.params ≡ record {
      bridge = b.id;
      home_chain_id = b.home.chain.chain_id;
      foreign_chain_id = b.foreign.chain.chain_id;
      home_start_block_number = alert.home_start_block;
      foreign_start_block_number = alert.foreign_start_block;
      home_bridge_address = b.home.address;
      foreign_bridge_address = b.foreign.address;
      home_whitelisted_senders = b.home.whitelisted_senders;
    })
    × (b.home.start_block ≤ alert.home_start_block)
    × (b.foreign.start_block ≤ alert.foreign_start_block)

abbrev AllJobs :
    BridgeConfig → List (String × Option BridgeAlertConfig) → List (String × Job) → Type 0
AllJobs b [] [] = Unit
AllJobs b [] (j ∷ jobs) = ⊥
AllJobs b (a ∷ alerts) [] = ⊥
AllJobs b (a ∷ alerts) (j ∷ jobs) = IsJobFor b a j × AllJobs b alerts jobs

-- A job for each of the alerts, or the refusal.
abbrev pub JobsFor :
    BridgeConfig → List (String × Option BridgeAlertConfig) → Result (List (String × Job)) → Type 0
JobsFor b alerts (ok jobs) = AllJobs b alerts jobs
JobsFor b alerts (err e) = HasUnknown alerts × (e ≡ unknown_alert)
JobsFor b alerts panic = ⊥

module _ (b : BridgeConfig) where
  with_job-JobsFor :
      (name : String) (alert : BridgeAlertConfig) (o : Option JobFunc)
      (alerts : List (String × Option BridgeAlertConfig)) (r : Result (List (String × Job)))
      → find_job job_funcs name ≡ o
      → b.home.start_block ≤ alert.home_start_block
      → b.foreign.start_block ≤ alert.foreign_start_block
      → JobsFor b alerts r
      → JobsFor b ((name, some alert) ∷ alerts) (with_job name (new_job b o (some alert)) r)
  with_job-JobsFor name alert none alerts r e home foreign js =
      (inl (λ func known. absurd (cc (sym e ∙ AlertJob-find_job known))), refl)
  with_job-JobsFor name alert (some func) alerts (ok jobs) e home foreign js =
      ((alert, refl, refl, find_job-AlertJob name func e, refl, home, foreign), js)
  with_job-JobsFor name alert (some func) alerts (err c) e home foreign js = (inr js.0, js.1)
  with_job-JobsFor name alert (some func) alerts panic e home foreign js = absurd js

  new_jobs-JobsFor :
      (alerts : List (String × Option BridgeAlertConfig))
      → All (λ (a : String × Option BridgeAlertConfig). AlertInRange b a.1) alerts
      → JobsFor b alerts (new_jobs b alerts)
  new_jobs-JobsFor [] a = tt
  new_jobs-JobsFor ((name, o) ∷ alerts) a =
      let (alert, e, home, foreign) = a.0 in
      rw e (
        with_job-JobsFor name alert (find_job job_funcs name) alerts (new_jobs b alerts) refl home
          foreign (new_jobs-JobsFor alerts a.1))

  -- For a bridge that ReadConfig has completed, NewAlertManager does not panic. It refuses only a
  -- bridge that has an alert of none of the thirteen names it knows; otherwise each alert gets, under
  -- its name, the job that runs the query of that alert, with the ids and addresses of this bridge's
  -- two sides and from the blocks of the alert on, which are not before the start of either side.
  pub new_alert_manager-JobsFor : IsReady b → JobsFor b b.alerts (new_alert_manager b)
  unfolding new_alert_manager
  new_alert_manager-JobsFor is_ready = new_jobs-JobsFor b.alerts is_ready.alerts_in_range
