-- ===== src/Server/Processes.antt =====
-- src/RServer.cpp: which descriptors the server and its sessions hold.
use rc2compute.Prelude.{
  ◌≡◌, refl, ap, sym, ◌∙◌, false, Bool-cases, inl, inr, List, [], ◌∷◌, ◌++◌, append-nil,
  append_assoc, subst, Bytes,
}
use rc2compute.Numbers.{ℤ, eq_ℤ, minus_one}
use rc2compute.Map.{eq_ℤ_refl}
use rc2compute.Server.{
  Running, Server, Fork, child_runs, child_exits, no_child, close_descriptor, session_args,
  accepted,
}

-- The kernel gives a descriptor that is not open.
abbrev pub IsFresh : ℤ → List ℤ → Type 0
IsFresh fd [] = Unit {0}
IsFresh fd (x ∷ xs) = (eq_ℤ x fd ≡ false) × IsFresh fd xs

-- The clients whose socket the server had when it forked, in their order, and what the server becomes:
-- it accepts a client, or fails to, or a session ends.
pub data Serves (path : Bytes) (s : Server) : List ℤ → Server → Type 0 where
  start : Serves path s [] s
  client_runs :
      (fds : List ℤ) (t : Server) (fd : ℤ)
      → Serves path s fds t
      → eq_ℤ fd minus_one ≡ false
      → IsFresh fd t.descriptors
      → Serves path s (fds ++ fd ∷ []) (accepted path fd child_runs t)
  client_exits :
      (fds : List ℤ) (t : Server) (fd : ℤ)
      → Serves path s fds t
      → eq_ℤ fd minus_one ≡ false
      → IsFresh fd t.descriptors
      → Serves path s (fds ++ fd ∷ []) (accepted path fd child_exits t)
  no_fork :
      (fds : List ℤ) (t : Server) (fd : ℤ)
      → Serves path s fds t
      → IsFresh fd t.descriptors
      → Serves path s fds (accepted path fd no_child t)
  no_client :
      (fds : List ℤ) (t : Server) (fork : Fork)
      → Serves path s fds t
      → Serves path s fds (accepted path minus_one fork t)
  session_ends :
      (fds : List ℤ) (t : Server) (before after : List Running) (c : Running)
      → Serves path s fds t
      → t.sessions ≡ before ++ c ∷ after
      → Serves path s fds (record t { sessions = before ++ after })

close_descriptor-append :
    (fd : ℤ) (xs : List ℤ) → IsFresh fd xs → close_descriptor fd (xs ++ fd ∷ []) ≡ xs
unfolding close_descriptor
close_descriptor-append fd [] h = rw (eq_ℤ_refl fd) refl
close_descriptor-append fd (x ∷ xs) h = rw h.0 (ap (λ t. x ∷ t) (close_descriptor-append fd xs h.1))

-- The session serves one of the clients, and holds what the server held when it started, with the sockets of
-- the clients before its own.
abbrev pub IsServing : Bytes → Server → List ℤ → Running → Type 0
IsServing path s fds c =
    (before : List ℤ) × (after : List ℤ) × (fds ≡ before ++ c.socket ∷ after)
    × (c.descriptors ≡ s.descriptors ++ (before ++ c.socket ∷ []))
    × (c.path ≡ path)
    × (c.args ≡ session_args s.verbose c.socket)

abbrev pub AllServing : Bytes → Server → List ℤ → List Running → Type 0
AllServing path s fds [] = Unit {0}
AllServing path s fds (c ∷ cs) = IsServing path s fds c × AllServing path s fds cs

AllServing-later :
    (path : Bytes) (s : Server) (fds : List ℤ) (fd : ℤ) (cs : List Running)
    → AllServing path s fds cs
    → AllServing path s (fds ++ fd ∷ []) cs
AllServing-later path s fds fd [] h = tt
AllServing-later path s fds fd (c ∷ cs) h =
    let (before, after, at_place, holds, at_path, has_args) = h.0 in
    (
      (
        before,
        after ++ fd ∷ [],
        ap (λ l. l ++ fd ∷ []) at_place ∙ append_assoc before (c.socket ∷ after) (fd ∷ []),
        holds,
        at_path,
        has_args,
      ),
      AllServing-later path s fds fd cs h.1,
    )

AllServing-append :
    (path : Bytes) (s : Server) (fds : List ℤ) (cs cs' : List Running)
    → AllServing path s fds cs
    → AllServing path s fds cs'
    → AllServing path s fds (cs ++ cs')
AllServing-append path s fds [] cs' h k = k
AllServing-append path s fds (c ∷ cs) cs' h k = (h.0, AllServing-append path s fds cs cs' h.1 k)

AllServing-without :
    (path : Bytes) (s : Server) (fds : List ℤ) (before after : List Running) (c : Running)
    → AllServing path s fds (before ++ c ∷ after)
    → AllServing path s fds (before ++ after)
AllServing-without path s fds [] after c h = h.1
AllServing-without path s fds (b ∷ before) after c h =
    (h.0, AllServing-without path s fds before after c h.1)

record Held (path : Bytes) (s : Server) (fds : List ℤ) (t : Server) : Type 0 where
  descriptors_are : t.descriptors ≡ s.descriptors ++ fds
  verbose_is : t.verbose ≡ s.verbose
  serving : AllServing path s fds t.sessions

Serves-Held :
    (path : Bytes) (s : Server) (fds : List ℤ) (t : Server)
    → s.sessions ≡ []
    → Serves path s fds t
    → Held path s fds t
unfolding accepted eq_ℤ
Serves-Held path s fds t none_runs start = record {
  descriptors_are = sym (append-nil s.descriptors);
  verbose_is = refl;
  serving = subst (AllServing path s []) (sym none_runs) tt;
}
Serves-Held path s fds t none_runs (client_runs before u fd r ok_fd fresh) =
    let h = Serves-Held path s before u none_runs r in
    let held =
      ap (λ l. l ++ fd ∷ []) h.descriptors_are ∙ append_assoc s.descriptors before (fd ∷ []) in
    rw ok_fd (record {
      descriptors_are = held;
      verbose_is = h.verbose_is;
      serving =
          AllServing-append path s (before ++ fd ∷ []) u.sessions _
            (AllServing-later path s before fd u.sessions h.serving)
            ((before, [], refl, held, refl, ap (λ b. session_args b fd) h.verbose_is), tt);
    })
Serves-Held path s fds t none_runs (client_exits before u fd r ok_fd fresh) =
    let h = Serves-Held path s before u none_runs r in
    rw ok_fd (record {
      descriptors_are =
          ap (λ l. l ++ fd ∷ []) h.descriptors_are ∙ append_assoc s.descriptors before (fd ∷ []);
      verbose_is = h.verbose_is;
      serving = AllServing-later path s before fd u.sessions h.serving;
    })
Serves-Held path s fds t none_runs (no_fork _ u fd r fresh) =
    let h = Serves-Held path s _ u none_runs r in
    elim (Bool-cases (eq_ℤ fd minus_one)) [
      | inl e ↦ rw e h
      | inr e ↦ rw e (record {
        descriptors_are = close_descriptor-append fd u.descriptors fresh ∙ h.descriptors_are;
        verbose_is = h.verbose_is;
        serving = h.serving;
      })
    ]
Serves-Held path s fds t none_runs (no_client _ u fork r) = Serves-Held path s fds u none_runs r
Serves-Held path s fds t none_runs (session_ends _ u before after c r e) =
    let h = Serves-Held path s fds u none_runs r in
    record {
      descriptors_are = h.descriptors_are;
      verbose_is = h.verbose_is;
      serving =
          AllServing-without path s fds before after c (subst (AllServing path s fds) e h.serving);
    }

-- From a server without sessions that accepts clients, fails to, or sees sessions end, in any order: it
-- holds the sockets of all the clients for which it forked, whether their sessions still run or not, and
-- every session that runs has the socket of one of them as its argument, and holds that socket, those of all
-- clients before it, and what the server held from the start.
pub Serves-accepted :
    (path : Bytes) (s : Server) (fds : List ℤ) (t : Server)
    → s.sessions ≡ []
    → Serves path s fds t
    → (t.descriptors ≡ s.descriptors ++ fds) × AllServing path s fds t.sessions
Serves-accepted path s fds t none_runs r =
    let h = Serves-Held path s fds t none_runs r in (h.descriptors_are, h.serving)
