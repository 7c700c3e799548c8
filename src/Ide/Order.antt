-- ===== src/Ide/Order.antt =====
-- The driver serves the requests one by one, in the order of the calls of iderw.
use pcs_ii.Base.{
  ℕ, ◌<◌, ◌≡◌, refl, ap, subst, ◌∙◌, sym, Bool, true, false, not, ◌&&◌, List, [], ◌∷◌, ◌++◌, map,
  Option, none, some, take, All, lt→leb, ◌==◌,
}
use pcs_ii.Base.Outcome.{ret}
use pcs_ii.Ide.{
  fssize, Request, Ide, command, settled, ideintr, iderw, Event, request, interrupt, run,
}
use mathlib.Core.List.{append_assoc, append-nil, map-append}

abbrev pub requests : List Event → List Request
requests [] = []
requests (request held b ∷ es) = b ∷ requests es
requests (interrupt delivered ∷ es) = requests es

-- iderw has no reason to panic.
pub record IsLegal (havedisk1 : Bool) (b : Request) : Type 0 where
  pub needed : (b.valid && not b.dirty) ≡ false
  pub on_disk : (not (b.dev == 0) && not havedisk1) ≡ false
  pub in_range : b.blockno < fssize

abbrev pub AreLegal : Bool → List Event → Type 0
AreLegal havedisk1 [] = Unit
AreLegal havedisk1 (request held b ∷ es) =
    ((held ≡ true) × IsLegal havedisk1 b) × AreLegal havedisk1 es
AreLegal havedisk1 (interrupt delivered ∷ es) = AreLegal havedisk1 es

-- The buffer after its request: in step with the disk, and unchanged by a write.
pub record Finishes (b b' : Request) : Type 0 where
  pub same : (b'.id ≡ b.id) × (b'.dev ≡ b.dev) × (b'.blockno ≡ b.blockno)
  pub synced : (b'.valid ≡ true) × (b'.dirty ≡ false)
  pub kept : b.dirty ≡ true → b'.bytes ≡ b.bytes

abbrev pub Served : List Request → List Request → Type 0
Served [] [] = Unit
Served (b ∷ bs) (b' ∷ bs') = Finishes b b' × Served bs bs'
Served [] (b' ∷ bs') = ⊥
Served (b ∷ bs) [] = ⊥

-- Of the requests `rs`, some are served, the next is on the drive, and the rest wait.
pub record InOrder (rs : List Request) (s : Ide) : Type 0 where
  pub served : List Request
  pub split : rs ≡ served ++ s.queue
  pub finished : Served served s.finished
  pub started : s.trace ≡ map command (served ++ take 1 s.queue)
  pub in_range : All (λ b. b.blockno < fssize) s.queue

Served-append :
    (bs bs' : List Request) (b b' : Request)
    → Served bs bs'
    → Finishes b b'
    → Served (bs ++ (b ∷ [])) (bs' ++ (b' ∷ []))
Served-append [] [] b b' h f = (f, tt)
Served-append [] (c' ∷ bs') b b' h f = absurd h
Served-append (c ∷ bs) [] b b' h f = absurd h
Served-append (c ∷ bs) (c' ∷ bs') b b' h f = (h.0, Served-append bs bs' b b' h.1 f)

All-append {ℓ} :
    (P : Request → Type ℓ) (bs : List Request) (b : Request)
    → All P bs
    → P b
    → All P (bs ++ (b ∷ []))
All-append P [] b h p = (p, tt)
All-append P (c ∷ bs) b h p = (h.0, All-append P bs b h.1 p)

settled-Finishes : (delivered : Option (List ℕ)) (b : Request) → Finishes b (settled delivered b)
settled-Finishes none b = record {
  same = (refl, refl, refl);
  synced = (refl, refl);
  kept = λ e. refl;
}
settled-Finishes (some bytes) b = record {
  same = (refl, refl, refl);
  synced = (refl, refl);
  kept = λ e. rw e refl;
}

-- One command more.
started-append :
    (served : List Request) (b : Request)
    → map command (served ++ []) ++ (command b ∷ []) ≡ map command (served ++ (b ∷ []))
started-append served b = simp (map-append, append-nil)

-- A request is appended, and started if the drive is free.
iderw-InOrder :
    (havedisk1 : Bool) (b : Request) (rs : List Request) (s : Ide)
    → IsLegal havedisk1 b
    → InOrder rs s
    → (t : Ide) × (iderw havedisk1 true b s ≡ ret t) × InOrder (rs ++ (b ∷ [])) t
unfolding iderw
iderw-InOrder havedisk1 b rs s l v = go s.queue refl
  where
    whole : (q : List Request) → s.queue ≡ q → rs ++ (b ∷ []) ≡ v.served ++ (q ++ (b ∷ []))
    whole q e =
        ap (λ bs. bs ++ (b ∷ [])) (v.split ∙ ap (λ bs. v.served ++ bs) e)
        ∙ append_assoc v.served q (b ∷ [])

    go :
        (q : List Request)
        → s.queue ≡ q
        → (t : Ide) × (iderw havedisk1 true b s ≡ ret t) × InOrder (rs ++ (b ∷ [])) t
    go [] e = (
      record s { queue = b ∷ []; trace = s.trace ++ (command b ∷ []) },
      rw (l.needed, l.on_disk, e, lt→leb fssize b.blockno l.in_range) refl,
      record {
        served = v.served;
        split = whole [] e;
        finished = v.finished;
        started =
            ap (λ cs. cs ++ (command b ∷ []))
              (v.started ∙ ap (λ bs. map command (v.served ++ take 1 bs)) e)
            ∙ started-append v.served b;
        in_range = (l.in_range, tt);
      },
    )
    go (c ∷ q) e = (
      record s { queue = (c ∷ q) ++ (b ∷ []) },
      rw (l.needed, l.on_disk, e) refl,
      record {
        served = v.served;
        split = whole (c ∷ q) e;
        finished = v.finished;
        started = v.started ∙ ap (λ bs. map command (v.served ++ take 1 bs)) e;
        in_range =
            All-append (λ b. b.blockno < fssize) (c ∷ q) b
              (subst (All (λ b. b.blockno < fssize)) e v.in_range) l.in_range;
      },
    )

-- An interrupt completes the request at the head, and the next one is started.
ideintr-InOrder :
    (delivered : Option (List ℕ)) (rs : List Request) (s : Ide)
    → InOrder rs s
    → (t : Ide) × (ideintr delivered s ≡ ret t) × InOrder rs t
unfolding ideintr
ideintr-InOrder delivered rs s v = go s.queue refl
  where
    moved : (b : Request) (q : List Request) → s.queue ≡ b ∷ q → rs ≡ (v.served ++ (b ∷ [])) ++ q
    moved b q e = v.split ∙ ap (λ bs. v.served ++ bs) e ∙ sym (append_assoc v.served (b ∷ []) q)

    go : (q : List Request) → s.queue ≡ q → (t : Ide) × (ideintr delivered s ≡ ret t) × InOrder rs t
    go [] e = (s, rw e refl, v)
    go (b ∷ []) e = (
      record s { queue = []; finished = s.finished ++ (settled delivered b ∷ []) },
      rw e refl,
      record {
        served = v.served ++ (b ∷ []);
        split = moved b [] e;
        finished =
            Served-append v.served s.finished b (settled delivered b) v.finished
              (settled-Finishes delivered b);
        started =
            v.started
            ∙ ap (λ bs. map command (v.served ++ take 1 bs)) e
            ∙ ap (map command) (sym (append-nil (v.served ++ (b ∷ []))));
        in_range = tt;
      },
    )
    go (b ∷ c ∷ q) e =
        let ranges = subst (All (λ b. b.blockno < fssize)) e v.in_range in
        (
          record s {
            queue = c ∷ q;
            trace = s.trace ++ (command c ∷ []);
            finished = s.finished ++ (settled delivered b ∷ []);
          },
          rw (e, lt→leb fssize c.blockno ranges.1.0) refl,
          record {
            served = v.served ++ (b ∷ []);
            split = moved b (c ∷ q) e;
            finished =
                Served-append v.served s.finished b (settled delivered b) v.finished
                  (settled-Finishes delivered b);
            started =
                ap (λ cs. cs ++ (command c ∷ []))
                  (v.started
                    ∙ ap (λ bs. map command (v.served ++ take 1 bs)) e
                    ∙ ap (map command) (sym (append-nil (v.served ++ (b ∷ [])))))
                ∙ started-append (v.served ++ (b ∷ [])) c;
            in_range = ranges.1;
          },
        )

run_from-InOrder :
    (havedisk1 : Bool) (es : List Event) (rs : List Request) (s : Ide)
    → AreLegal havedisk1 es
    → InOrder rs s
    → (t : Ide) × (run havedisk1 es s ≡ ret t) × InOrder (rs ++ requests es) t
unfolding run
run_from-InOrder havedisk1 [] rs s l v =
    (s, refl, subst (λ bs. InOrder bs s) (sym (append-nil rs)) v)
run_from-InOrder havedisk1 (request held b ∷ es) rs s l v =
    let (t, e, w) = iderw-InOrder havedisk1 b rs s l.0.1 v in
    let (u, f, x) = run_from-InOrder havedisk1 es (rs ++ (b ∷ [])) t l.1 w in
    (u, rw (l.0.0, e) f, subst (λ bs. InOrder bs u) (append_assoc rs (b ∷ []) (requests es)) x)
run_from-InOrder havedisk1 (interrupt delivered ∷ es) rs s l v =
    let (t, e, w) = ideintr-InOrder delivered rs s v in
    let (u, f, x) = run_from-InOrder havedisk1 es rs t l w in (u, rw e f, x)

abbrev pub at_rest : Ide
at_rest = record { queue = []; trace = []; finished = [] }

-- From an empty queue, for every sequence of calls of iderw that have no reason to panic and of
-- interrupts, the driver does not panic. The commands that it gave the drive are those of the served requests
-- and of the one at the head of the queue, each once and in the order of the calls; the buffers
-- served are valid and not dirty, and those that were written have their bytes.
pub run-InOrder :
    (havedisk1 : Bool) (es : List Event)
    → AreLegal havedisk1 es
    → (t : Ide) × (run havedisk1 es at_rest ≡ ret t) × InOrder (requests es) t
run-InOrder havedisk1 es l =
    run_from-InOrder havedisk1 es [] at_rest l
      (record { served = []; split = refl; finished = tt; started = refl; in_range = tt })
