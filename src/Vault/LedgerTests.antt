-- ===== src/Vault/LedgerTests.antt =====
-- Transactions over a ledger of vaults, at concrete accounts.
use recovery_guardian_contra.Vault.Ledger.Soundness.{ledger_vaults-IsSound}
use recovery_guardian_contra.Vault.Invariant.{IsTyped, IsSound}
use recovery_guardian_contra.Vault.Ledger.Invariants.{AllMakeOnly}
use mathlib.Core.Option.{some_inj}
use mathlib.Core.Path.{subst}
use recovery_guardian_contra.Vault.Errors.{account_constraint}
use recovery_guardian_contra.Prelude.Results.{err, ok}
use recovery_guardian_contra.Vault.Context.{lamports_moved, Transaction}
use recovery_guardian_contra.Prelude.{
  refl, some, [], false, true, ◌≡◌, Bytes, bytes_eq, contains, List, ◌∷◌, replicate, ℕ,
  if◌then◌else◌,
}
use recovery_guardian_contra.Vault.Accounts.{
  AccountInfo, Program, Ledger, PauseRecovery, account_at, create_vault_accounts,
  execute_transfer_accounts, write_account,
}
use recovery_guardian_contra.Vault.Ledger.{
  Instruction, run_instruction, run_instructions, run_transactions,
}
use recovery_guardian_contra.Vault.Ledger.Histories.{run_transactions-Evolves, Evolves, IsSubmitted}
use recovery_guardian_contra.Vault.Ledger.Funds.{ledger_lamports_need_owner, IsOwnersTransfer}
use recovery_guardian_contra.Vault.Ledger.Addresses.{addresses_are_forever, IsHoused}
use recovery_guardian_contra.Vault.Handlers.{vault_seed, create_vault, execute_transfer}
use recovery_guardian_contra.Vault.Tests.{born}
use recovery_guardian_contra.Samples.{hasher, key, at_time, opened}
use recovery_guardian_contra.Cluster.{localnet}

abbrev program : Program
program = record {
  hasher = hasher;
  cluster = localnet;
  program_id = key 9;
  derive = λ seeds. if contains seeds vault_seed then key 8 else key 7;
  bump_of = λ seeds. if contains seeds vault_seed then 254 else 255;
  instructions_sysvar_id = key 12;
  system_program_id = key 13;
}

abbrev signing : ℕ → AccountInfo
signing k = record { key = key k; is_signer = true; is_writable = true }

abbrev writable : ℕ → AccountInfo
writable k = record { key = key k; is_signer = false; is_writable = true }

abbrev readonly : ℕ → AccountInfo
readonly k = record { key = key k; is_signer = false; is_writable = false }

abbrev creation : Instruction
creation =
    Instruction.create_vault
      (record {
        payer = signing 20;
        creator = signing 5;
        vault = writable 8;
        vault_sol = readonly 7;
        system_program = readonly 13;
      })
      (replicate 16 0)

abbrev pausing : PauseRecovery
pausing = record { vault = writable 8; pause_authority = signing 1 }

abbrev paying : Instruction
paying =
    Instruction.execute_transfer
      (record {
        vault = readonly 8;
        owner = signing 5;
        vault_sol = writable 7;
        destination = writable 30;
        system_program = readonly 13;
      })
      100

abbrev ledger : Ledger
ledger = (key 8, opened) ∷ []

abbrev history : List (Transaction × List Instruction)
history = (at_time 1010 [], Instruction.pause pausing ∷ paying ∷ []) ∷ []

-- The same creation again fails.
abbrev creations : List (Transaction × List Instruction)
creations = (at_time 10 [], creation ∷ []) ∷ (at_time 11 [], creation ∷ []) ∷ []

created : account_at (run_transactions program creations []) (key 8) ≡ some born
unfolding run_transactions create_vault contains bytes_eq account_at create_vault_accounts
    run_instructions run_instruction write_account
created = refl

pays :
    run_instruction program (at_time 1010 []) paying ledger
    ≡ ok (ledger, lamports_moved (key 7) (key 30) 100)
unfolding run_instruction execute_transfer_accounts contains bytes_eq execute_transfer account_at
pays = refl

-- Without the owner's signature, the account is refused.
unsigned :
    run_instruction program
      (at_time 1010 [])
      (Instruction.execute_transfer
        (record {
          vault = readonly 8;
          owner = readonly 5;
          vault_sol = writable 7;
          destination = writable 30;
          system_program = readonly 13;
        })
        100)
      ledger
    ≡ err account_constraint
unfolding run_instruction execute_transfer_accounts contains bytes_eq execute_transfer account_at
unsigned = refl

there : account_at ledger (key 8) ≡ some opened
unfolding account_at bytes_eq
there = refl

run_transactions-Evolves_example :
    Evolves program
      (key 8)
      (IsSubmitted history (key 8))
      opened
      (run_transactions program history ledger)
run_transactions-Evolves_example = run_transactions-Evolves program (key 8) history ledger there

ledger_lamports_need_owner_example :
    IsOwnersTransfer program ledger paying (key 7) (key 30) 100
    × ((k : Bytes) → account_at ledger k ≡ account_at ledger k)
ledger_lamports_need_owner_example =
    ledger_lamports_need_owner program (at_time 1010 []) ledger paying (key 7) (key 30) 100 pays

addresses_are_forever_example : IsHoused program (key 8) born × (key 8 ≡ key 8)
addresses_are_forever_example =
    addresses_are_forever program creations (key 8) (key 8) born born created created refl refl

-- The new vault's owner pays at once.
abbrev spending : List (Transaction × List Instruction)
spending = (at_time 10 [], creation ∷ paying ∷ []) ∷ (at_time 11 [], creation ∷ []) ∷ []

spent : account_at (run_transactions program spending []) (key 8) ≡ some born
unfolding run_transactions create_vault contains bytes_eq account_at create_vault_accounts
    run_instructions run_instruction write_account execute_transfer_accounts execute_transfer
spent = refl

spending-AllMakeOnly : AllMakeOnly IsTyped spending
spending-AllMakeOnly = (
  ((λ call named. cc), ((λ call named. subst IsTyped (some_inj.0 named) tt), tt)),
  (((λ call named. cc), tt), tt),
)

ledger_vaults-IsSound_example : IsSound born
ledger_vaults-IsSound_example =
    ledger_vaults-IsSound program spending (key 8) born spending-AllMakeOnly spent
