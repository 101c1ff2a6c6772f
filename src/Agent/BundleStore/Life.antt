-- ===== src/Agent/BundleStore/Life.antt =====
-- A store over its life: envelopes that arrive, accepted or refused, and restarts of the agent over
-- the same epoch store.
use pilotfish.Base.{◌≡◌, refl, sym, ap, subst, ◌∙◌, Option, some, List, ◌∷◌, arith, inl, inr}
use pilotfish.Base.Int.{ℤ, ◌<ℤ◌, ◌≤ℤ◌, max_ℤ}
use pilotfish.Base.Result.{Result, Error, ok, err, Result-cases, >>=-eq-ok, map_result}
use pilotfish.Base.Text.{Text, Bytes}
use pilotfish.Core.Models.{Link, Time}
use pilotfish.Core.Bundle.{PolicyBundle}
use pilotfish.Platform.{Platform}
use pilotfish.Protocol.Envelope.{Envelope, decode_envelope}
use pilotfish.Protocol.Messages.Bundles.{decode_bundle}
use pilotfish.Agent.Epoch.{EpochStore}
use pilotfish.Agent.BundleStore.{
  Store, checked, accept, new_store, installed, commit_checked, install_floor, catch_unreadable,
}
use pilotfish.Agent.BundleStore.Accept.{Passed, checked-Passed}

le_refl_ℤ : (a b : ℤ) → a ≡ b → a ≤ℤ b
le_refl_ℤ a b e = ground arith

module _ ⦃p : Platform⦄ {S : Type 0} (store : EpochStore S) where
  -- The store after a bundle is in, its epoch store apart.
  unfoldable pub holding : Store S → S → Envelope → PolicyBundle → Store S
  holding s epochs envelope bundle = record s {
    epochs = epochs;
    seen_nonces = envelope.nonce ∷ s.seen_nonces;
    bundle = some bundle;
    sequence = bundle.sequence;
  }

  installed-ok :
      (s : Store S) (e : Envelope) (b b' : PolicyBundle) (c : Result (Unit {0}) × S)
      → (installed store s e b c).0 ≡ ok b'
      → (c.0 ≡ ok tt) × (b ≡ b') × ((installed store s e b c).1 ≡ holding s c.1 e b)
  unfolding holding
  installed-ok s e b b' (ok _, epochs) h = (refl, cc, refl)
  installed-ok s e b b' (err x, epochs) h = cc

  installed-err :
      (s : Store S) (e : Envelope) (b : PolicyBundle) (x : Error) (c : Result (Unit {0}) × S)
      → (installed store s e b c).0 ≡ err x
      → (c.0 ≡ err x) × ((installed store s e b c).1 ≡ record s { epochs = c.1 })
  installed-err s e b x (ok _, epochs) h = cc
  installed-err s e b x (err y, epochs) h = (cc, refl)

  commit_checked-ok :
      (s : Store S) (b' : PolicyBundle) (r : Result (Envelope × PolicyBundle))
      → (commit_checked store s r).0 ≡ ok b'
      → (e : Envelope) × (r ≡ ok (e, b'))
        × ((store.commit b'.sequence s.epochs).0 ≡ ok tt)
        × ((commit_checked store s r).1 ≡ holding s (store.commit b'.sequence s.epochs).1 e b')
  commit_checked-ok s b' (err x) h = cc
  commit_checked-ok s b' (ok (e, b)) h =
      let (done, same, after) = installed-ok s e b b' (store.commit b.sequence s.epochs) h in
      (
        e,
        rw same,
        rw same at done,
        subst
            (λ x.
              (installed store s e b (store.commit b.sequence s.epochs)).1
              ≡ holding s (store.commit x.sequence s.epochs).1 e x)
            same after,
      )

  -- What `accept` returns, it found in the envelope, after every test had passed and the mark was
  -- committed; it is the bundle in force, its sequence is the store's mark, and its nonce is
  -- remembered. Nothing else of the store changes.
  pub accept_sound :
      (s : Store S) (bytes : Bytes) (now : Time) (bundle : PolicyBundle)
      → (accept store bytes now s).0 ≡ ok bundle
      → (envelope : Envelope) × Passed s bytes now envelope bundle
        × ((store.commit bundle.sequence s.epochs).0 ≡ ok tt)
        × ((accept store bytes now s).1
            ≡ holding s (store.commit bundle.sequence s.epochs).1 envelope bundle)
  unfolding accept
  accept_sound s bytes now bundle h =
      let (e, found, done, after) = commit_checked-ok s bundle (checked s bytes now) h in
      (e, checked-Passed s bytes now e bundle found, done, after)

  commit_checked-err :
      (s : Store S) (x : Error) (r : Result (Envelope × PolicyBundle))
      → (commit_checked store s r).0 ≡ err x
      → ((commit_checked store s r).1 ≡ record s { epochs = (commit_checked store s r).1.epochs })
        × (store.read (commit_checked store s r).1.epochs ≡ store.read s.epochs)
  commit_checked-err s x (err y) h = (refl, refl)
  commit_checked-err s x (ok (e, b)) h =
      let (refused, after) = installed-err s e b x (store.commit b.sequence s.epochs) h in
      (rw after, rw after (store.read-commit_error b.sequence s.epochs x refused))

  -- An `accept` that raises leaves the bundle in force, the mark, the nonces and the keys as they
  -- were, and the epoch store reads as before.
  pub accept_refused :
      (s : Store S) (bytes : Bytes) (now : Time) (x : Error)
      → (accept store bytes now s).0 ≡ err x
      → ((accept store bytes now s).1 ≡ record s { epochs = (accept store bytes now s).1.epochs })
        × (store.read (accept store bytes now s).1.epochs ≡ store.read s.epochs)
  unfolding accept
  accept_refused s bytes now x h = commit_checked-err s x (checked s bytes now) h

  -- The mark in memory is the mark on the disk.
  abbrev pub IsSynced : Store S → Type 0
  IsSynced s = store.read s.epochs ≡ ok s.sequence

  -- One event in the life of a store: an envelope that is offered to `accept`, or a restart, which
  -- builds a new store over the epochs that the old one left.
  pub data Event : Store S → Store S → Type 0 where
    offer : (s : Store S) (bytes : Bytes) (now : Time) → Event s (accept store bytes now s).1
    restart :
        (s s' : Store S) (key : Bytes) (issuer site : Text) (floor : Bytes)
        (links : Option (List Link))
        → new_store store key issuer site floor s.epochs links ≡ ok s'
        → Event s s'

  pub data Life : Store S → Store S → Type 0 where
    start : (s : Store S) → Life s s
    next : {s t u : Store S} → Life s t → Event t u → Life s u

  refused-IsSynced :
      (s s' : Store S)
      → s' ≡ record s { epochs = s'.epochs }
      → store.read s'.epochs ≡ store.read s.epochs
      → IsSynced s
      → IsSynced s' × (s.sequence ≤ℤ s'.sequence)
  refused-IsSynced s s' same kept synced =
      let e : s'.sequence ≡ s.sequence = ap (λ t. t.sequence) same in
      (rw (kept, e) synced, le_refl_ℤ _ _ (sym e))

  max_newer : (a b : ℤ) → a <ℤ b → max_ℤ a b ≡ b
  max_newer a b h = ground arith

  holding-IsSynced :
      (s : Store S) (e : Envelope) (b : PolicyBundle)
      → (store.commit b.sequence s.epochs).0 ≡ ok tt
      → s.sequence <ℤ b.sequence
      → IsSynced s
      → IsSynced (holding s (store.commit b.sequence s.epochs).1 e b)
        × (s.sequence ≤ℤ (holding s (store.commit b.sequence s.epochs).1 e b).sequence)
  unfolding holding
  holding-IsSynced s e b done newer synced =
      let reads = store.read-commit b.sequence s.sequence s.epochs synced done in
      (rw (max_newer s.sequence b.sequence newer) at reads, omega arith)

  accept-IsSynced :
      (s : Store S) (bytes : Bytes) (now : Time)
      → IsSynced s
      → IsSynced (accept store bytes now s).1
        × (s.sequence ≤ℤ (accept store bytes now s).1.sequence)
  accept-IsSynced s bytes now synced = elim (Result-cases (accept store bytes now s).0) [
    | inl (bundle, h) ↦
        let (e, good, done, after) = accept_sound s bytes now bundle h in
        subst (λ t. IsSynced t × (s.sequence ≤ℤ t.sequence)) (sym after)
          (holding-IsSynced s e bundle done good.newer synced)
    | inr (x, h) ↦
        let (same, kept) = accept_refused s bytes now x h in refused-IsSynced s _ same kept synced
  ]

  unreadable_caught : (r : Result ℤ) (n : ℤ) → catch_unreadable r ≡ ok n → r ≡ ok n
  unreadable_caught (ok m) n h = h
  unreadable_caught (err x) n h = ground arith

  new_store-reads :
      (key : Bytes) (issuer site : Text) (floor : Bytes) (epochs : S) (links : Option (List Link))
      (s : Store S)
      → new_store store key issuer site floor epochs links ≡ ok s
      → (store.read epochs ≡ ok s.sequence) × (s.epochs ≡ epochs)
  unfolding new_store
  new_store-reads key issuer site floor epochs links s h =
      let (f, fine, h1) = >>=-eq-ok (install_floor key issuer site floor links) _ h in
      let (n, reads, h2) = >>=-eq-ok (catch_unreadable (store.read epochs)) _ h1 in
      let e : ok n ≡ ok s.sequence = ap (map_result (λ (t : Store S). t.sequence)) h2 in
      let e' : ◌≡◌ {A = Result S} (ok epochs) (ok s.epochs) =
        ap (map_result (λ (t : Store S). t.epochs)) h2 in
      (unreadable_caught _ _ reads ∙ e, cc)

  Event-IsSynced :
      {s t : Store S} → Event s t → IsSynced s → IsSynced t × (s.sequence ≤ℤ t.sequence)
  Event-IsSynced (offer s bytes now) synced = accept-IsSynced s bytes now synced
  Event-IsSynced (restart s s' key issuer site floor links h) synced =
      let (reads, same) = new_store-reads key issuer site floor s.epochs links s' h in
      let e : ok s.sequence ≡ ok s'.sequence = sym synced ∙ reads in
      let f : s.sequence ≡ s'.sequence = cc in
      (subst (λ x. store.read x ≡ ok s'.sequence) (sym same) reads, le_refl_ℤ _ _ f)

  -- Over the whole life of a store, restarts included, a mark in memory that was the mark on the
  -- disk stays so, and it never goes down.
  pub Life-monotone :
      {s t : Store S} → Life s t → IsSynced s → IsSynced t × (s.sequence ≤ℤ t.sequence)
  Life-monotone (start s) synced = (synced, omega arith)
  Life-monotone (next l e) synced =
      let (synced', up) = Life-monotone l synced in
      let (synced'', up') = Event-IsSynced e synced' in (synced'', omega (arith, up, up'))

  -- An envelope whose bundle is no newer than the mark is refused.
  refused_old :
      (s : Store S) (e : Envelope) (bytes : Bytes) (b : PolicyBundle) (now : Time)
      (r : Result PolicyBundle)
      → decode_envelope bytes ≡ ok e
      → decode_bundle e.payload ≡ ok b
      → b.sequence ≤ℤ s.sequence
      → (accept store bytes now s).0 ≡ r
      → (x : Error) × (r ≡ err x)
  refused_old s e bytes b now (err x) h k old a = (x, refl)
  refused_old s e bytes b now (ok b') h k old a =
      let (e', good, done, after) = accept_sound s bytes now b' a in
      let same : ◌≡◌ {A = Result Envelope} (ok e) (ok e') = sym h ∙ good.carried in
      let same' : e ≡ e' = cc in
      let carried : decode_bundle e.payload ≡ ok b' = rw same' good.payload in
      let eq : ◌≡◌ {A = Result PolicyBundle} (ok b) (ok b') = sym k ∙ carried in
      let eq' : b ≡ b' = cc in
      let newer : s.sequence <ℤ b.sequence = rw eq' good.newer in absurd (omega arith)

  -- An envelope that was accepted once is refused ever after, whatever arrives in between and
  -- however often the agent restarts over the same epoch store, if the store's mark was the one on
  -- the disk when it accepted the envelope.
  pub replay_refused :
      (s : Store S) (bytes : Bytes) (now : Time) (bundle : PolicyBundle) (later : Store S)
      (again : Time)
      → IsSynced s
      → (accept store bytes now s).0 ≡ ok bundle
      → Life (accept store bytes now s).1 later
      → (x : Error) × ((accept store bytes again later).0 ≡ err x)
  unfolding holding
  replay_refused s bytes now bundle later again synced h life =
      let (e, good, done, after) = accept_sound s bytes now bundle h in
      let (synced', up) = Life-monotone life (accept-IsSynced s bytes now synced).0 in
      let mark : (accept store bytes now s).1.sequence ≡ bundle.sequence =
        ap (λ t. t.sequence) after in
      let old : bundle.sequence ≤ℤ later.sequence = subst (λ x. x ≤ℤ later.sequence) mark up in
      refused_old later e bytes bundle again _ good.carried good.payload old refl
